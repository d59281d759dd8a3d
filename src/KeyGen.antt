-- ===== src/KeyGen.antt =====
-- crypto/keygen/keygen.go: the key files. The files, the PEM and x509 encodings and the generator are
-- parameters; a text is its bytes, a key a handle. What a deferred Close returns is the error of a
-- call that has no other.
pub mod RoundTrip
use basic_hotstuff.Prelude.{
  ℕ, suc, List, [], ◌∷◌, ◌++◌, Option, none, some, Bool, true, false, Bytes, Error, deref, Result,
  ok, err, panic, hang, out_of_fuel, ◌>>=◌, file_failed, key_failed, if◌then◌else◌, ◌%◌,
}
use basic_hotstuff.Encoding.{u32_mod}
use basic_hotstuff.Types.{Id32}

-- What os.OpenFile, File.Write, File.Close and os.ReadFile do to files `D`; the flag says that no
-- error is returned. OpenFile truncates.
pub record Os (D : Type 0) : Type 0 where
  pub open_file : Bytes → D → D × Bool
  pub write_file : Bytes → Bytes → D → D × Bool
  pub close_file : Bytes → D → D × Bool
  pub read_file : Bytes → D → Option Bytes

-- `types.PublicKey`: x509 parses keys of other kinds too.
pub data PublicKey : Type 0 where
  ecdsa_key : ℕ → PublicKey
  other_key : PublicKey

pub record KeyTools : Type 0 where
  -- the n-th key that `ecdsa.GenerateKey` draws
  pub generate_key : ℕ → Option ℕ
  pub public_of : ℕ → ℕ
  pub marshal_private : ℕ → Option Bytes
  pub parse_private : Bytes → Option ℕ
  pub marshal_public : ℕ → Option Bytes
  pub parse_public : Bytes → Option PublicKey
  -- the type and the bytes of a block
  pub pem_encode : Bytes → Bytes → Bytes
  pub pem_decode : Bytes → Option (Bytes × Bytes)

-- model.ReplicaConfig with the key files.
pub record KeyFiles : Type 0 where
  pub id : ℕ
  pub private_file : Bytes
  pub public_file : Bytes

-- The fields of model.ReplicaConf that LoadPemFile sets.
pub record ReplicaConf : Type 0 where
  pub id : Id32
  pub conf : KeyFiles
  pub private_key : Bytes
  pub public_key : Bytes
  pub pri_key : ℕ
  pub pub_key : PublicKey

abbrev pub private_key_file_type : Bytes
private_key_file_type =
    69 ∷ 67 ∷ 68 ∷ 83 ∷ 65 ∷ 32 ∷ 80 ∷ 82 ∷ 73 ∷ 86 ∷ 65 ∷ 84 ∷ 69 ∷ 32 ∷ 75 ∷ 69 ∷ 89 ∷ []

abbrev pub public_key_file_type : Bytes
public_key_file_type =
    69 ∷ 67 ∷ 68 ∷ 83 ∷ 65 ∷ 32 ∷ 80 ∷ 85 ∷ 66 ∷ 76 ∷ 73 ∷ 67 ∷ 32 ∷ 75 ∷ 69 ∷ 89 ∷ []

-- An error that is returned.
abbrev or_err {ℓ} : {A : Type ℓ} → Error → Option A → Result A
or_err e none = err e
or_err e (some a) = ok a

-- `PrivateKeyToPEM`.
unfoldable pub private_key_to_pem : KeyTools → ℕ → Result Bytes
private_key_to_pem t key = do
  marshaled ← or_err key_failed (t.marshal_private key)
  ok (t.pem_encode private_key_file_type marshaled)

-- `PublicKeyToPEM`, with its type assertion.
unfoldable pub public_key_to_pem : KeyTools → PublicKey → Result Bytes
public_key_to_pem t other_key = panic
public_key_to_pem t (ecdsa_key key) = do
  marshaled ← or_err key_failed (t.marshal_public key)
  ok (t.pem_encode public_key_file_type marshaled)

-- `ParsePrivateKey`: text without a PEM block is a nil dereference.
unfoldable pub parse_private_key : KeyTools → Bytes → Result ℕ
parse_private_key t buf = do b ← deref (t.pem_decode buf); or_err key_failed (t.parse_private b.1)

-- `ParsePublicKey`.
unfoldable pub parse_public_key : KeyTools → Bytes → Result PublicKey
parse_public_key t buf = do
  b ← or_err key_failed (t.pem_decode buf)
  or_err key_failed (t.parse_public b.1)

-- What a call that only returns an error ends with.
abbrev Done : Type 0
Done = Result Unit

-- An error that is dropped: the slice is then nil.
abbrev pem_or_nil : Result Bytes → Result Bytes
pem_or_nil (ok b) = ok b
pem_or_nil (err e) = ok []
pem_or_nil panic = panic
pem_or_nil hang = hang
pem_or_nil out_of_fuel = out_of_fuel

abbrev done_if : Bool → Done
done_if b = if b then ok tt else err file_failed

abbrev close_error : Done → Bool → Done
close_error (ok u) closed = done_if closed
close_error (err e) closed = err e
close_error panic closed = panic
close_error hang closed = hang
close_error out_of_fuel closed = out_of_fuel

-- A replica that does not load ends the loop, with those before it in the configuration.
abbrev load_next :
    List ReplicaConf
    → Result ReplicaConf
    → (ReplicaConf → List ReplicaConf × Done)
    → List ReplicaConf × Done
load_next loaded (ok r) f = f r
load_next loaded (err e) f = (loaded, err e)
load_next loaded panic f = (loaded, panic)
load_next loaded hang f = (loaded, hang)
load_next loaded out_of_fuel f = (loaded, out_of_fuel)

module _ {D : Type 0} where
  -- `f.Write` of what the encoder returns.
  unfoldable pub write_pem : Os D → Bytes → Result Bytes → D → D × Done
  write_pem os path (ok b) d = let (d', wrote) = os.write_file path b d in (d', done_if wrote)
  write_pem os path (err e) d = (d, err e)
  write_pem os path panic d = (d, panic)
  write_pem os path hang d = (d, hang)
  write_pem os path out_of_fuel d = (d, out_of_fuel)

  -- The deferred function.
  unfoldable pub close_after : Os D → Bytes → D × Done → D × Done
  close_after os path (d, r) = let (d', closed) = os.close_file path d in (d', close_error r closed)

  unfoldable pub write_opened : Os D → Bytes → Result Bytes → D × Bool → D × Done
  unfolding close_after write_pem
  write_opened os path pem (d, true) = close_after os path (write_pem os path pem d)
  write_opened os path pem (d, false) = (d, err file_failed)

  unfoldable pub write_key_file : Os D → Bytes → Result Bytes → D → D × Done
  unfolding write_opened
  write_key_file os path pem d = write_opened os path pem (os.open_file path d)

  unfoldable pub write_private_key_file : Os D → KeyTools → ℕ → Bytes → D → D × Done
  unfolding write_key_file
  write_private_key_file os t key path = write_key_file os path (private_key_to_pem t key)

  unfoldable pub write_public_key_file : Os D → KeyTools → PublicKey → Bytes → D → D × Done
  unfolding write_key_file
  write_public_key_file os t key path = write_key_file os path (public_key_to_pem t key)

  -- `if err != nil { panic(err) }`.
  unfoldable pub or_panic : D × Done → (D → D × Done) → D × Done
  or_panic (d, ok u) f = f d
  or_panic (d, err e) f = (d, panic)
  or_panic (d, panic) f = (d, panic)
  or_panic (d, hang) f = (d, hang)
  or_panic (d, out_of_fuel) f = (d, out_of_fuel)

  unfoldable pub write_pair : Os D → KeyTools → ℕ → KeyFiles → D → D × Done
  unfolding or_panic write_private_key_file write_public_key_file
  write_pair os t key rep d = or_panic (write_private_key_file os t key rep.private_file d) λ d1.
      or_panic (write_public_key_file os t (ecdsa_key (t.public_of key)) rep.public_file d1)
        λ d2. (d2, ok tt)

  -- A key that cannot be drawn panics.
  abbrev with_key : D → Option ℕ → (ℕ → D × Done) → D × Done
  with_key d none f = (d, panic)
  with_key d (some key) f = f key

  -- `GenerateKeyChain`, whose next key is the n-th.
  unfoldable pub generate_key_chain : Os D → KeyTools → ℕ → List KeyFiles → D → D × Done
  unfolding or_panic write_pair
  generate_key_chain os t n [] d = (d, ok tt)
  generate_key_chain os t n (rep ∷ reps) d =
      with_key d (t.generate_key n)
        λ key. or_panic (write_pair os t key rep d) λ d'. generate_key_chain os t (suc n) reps d'

  unfoldable pub read_private_key_file : Os D → KeyTools → Bytes → D → Result ℕ
  unfolding parse_private_key
  read_private_key_file os t path d = do
    buf ← or_err file_failed (os.read_file path d)
    parse_private_key t buf

  unfoldable pub read_public_key_file : Os D → KeyTools → Bytes → D → Result PublicKey
  unfolding parse_public_key
  read_public_key_file os t path d = do
    buf ← or_err file_failed (os.read_file path d)
    parse_public_key t buf

  unfoldable pub load_replica : Os D → KeyTools → KeyFiles → D → Result ReplicaConf
  unfolding read_private_key_file read_public_key_file private_key_to_pem public_key_to_pem
  load_replica os t c d = do
    pri ← read_private_key_file os t c.private_file d
    key ← read_public_key_file os t c.public_file d
    private_pem ← pem_or_nil (private_key_to_pem t pri)
    public_pem ← pem_or_nil (public_key_to_pem t key)
    ok (record {
      id = c.id % u32_mod;
      conf = c;
      private_key = private_pem;
      public_key = public_pem;
      pri_key = pri;
      pub_key = key;
    })

  -- `LoadPemFile`, which appends to `gConf.ReplicaConf`.
  unfoldable pub load_pem_file :
      Os D → KeyTools → List KeyFiles → D → List ReplicaConf → List ReplicaConf × Done
  unfolding load_replica
  load_pem_file os t [] d loaded = (loaded, ok tt)
  load_pem_file os t (c ∷ cs) d loaded =
      load_next loaded (load_replica os t c d) λ r. load_pem_file os t cs d (loaded ++ (r ∷ []))
