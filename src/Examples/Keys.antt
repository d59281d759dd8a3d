-- ===== src/Examples/Keys.antt =====
-- Key files of two replicas, on a disk that is a function from paths.
use basic_hotstuff.Prelude.{
  ℕ, ◌+◌, ◌≡◌, ◌≢◌, refl, List, [], ◌∷◌, Option, none, some, true, Bytes, ok, bytes_beq,
  bytes_beq_iff, if◌then◌else◌, bytes_beq_refl, Bool-cases, inl, inr, take, drop, length, ap, ◌++◌,
}
use basic_hotstuff.KeyGen.{
  Os, KeyTools, KeyFiles, ReplicaConf, PublicKey, ecdsa_key, generate_key_chain, load_pem_file,
}
use basic_hotstuff.KeyGen.RoundTrip.{
  Works, Encodes, AllDistinct, paths, Issued, generate_key_chain-load,
}

abbrev Disk : Type 0
Disk = Bytes → Option Bytes

abbrev file_put : Bytes → Bytes → Disk → Disk
file_put p b d q = if bytes_beq q p then some b else d q

abbrev disk : Os Disk
disk = record {
  open_file = λ p d. (file_put p [] d, true);
  write_file = λ p b d. (file_put p b d, true);
  close_file = λ p d. (d, true);
  read_file = λ p d. d p;
}

file_put-same : (p b : Bytes) (d : Disk) → file_put p b d p ≡ some b
file_put-same p b d = rw (file_put, bytes_beq_refl p) refl

file_put-other : (p q b : Bytes) (d : Disk) → q ≢ p → file_put p b d q ≡ d q
file_put-other p q b d ne = elim (Bool-cases (bytes_beq q p)) [
  | inl e ↦ absurd (ne ((bytes_beq_iff q p).0 e))
  | inr e ↦ rw (file_put, e) refl
]

disk-Works : Works disk
disk-Works = record {
  opens = λ p d. refl;
  writes = λ p b d. refl;
  closes = λ p d. refl;
  truncated = λ p d. file_put-same p [] d;
  written = λ p b d h. file_put-same p b d;
  closed = λ p q d. refl;
  open_other = λ p q d. file_put-other p q [] d;
  write_other = λ p q b d. file_put-other p q b d;
}

take-prefix : (xs ys : Bytes) → take (length xs) (xs ++ ys) ≡ xs
take-prefix [] [] = refl
take-prefix [] (y ∷ ys) = refl
take-prefix (x ∷ xs) ys = ap (λ l. x ∷ l) (take-prefix xs ys)

drop-prefix : (xs ys : Bytes) → drop (length xs) (xs ++ ys) ≡ ys
drop-prefix [] [] = refl
drop-prefix [] (y ∷ ys) = refl
drop-prefix (x ∷ xs) ys = drop-prefix xs ys

-- A text is the length of its type, the type and the bytes.
abbrev decode : Bytes → Option (Bytes × Bytes)
decode [] = none
decode (n ∷ bs) = some (take n bs, drop n bs)

abbrev key_of_der : Bytes → Option ℕ
key_of_der [] = none
key_of_der (k ∷ bs) = some k

abbrev public_of_der : Bytes → Option PublicKey
public_of_der [] = none
public_of_der (k ∷ bs) = some (ecdsa_key k)

abbrev tools : KeyTools
tools = record {
  generate_key = λ n. some (10 + n);
  public_of = λ k. 100 + k;
  marshal_private = λ k. some (k ∷ []);
  parse_private = key_of_der;
  marshal_public = λ k. some (k ∷ []);
  parse_public = public_of_der;
  pem_encode = λ type b. length type ∷ (type ++ b);
  pem_decode = decode;
}

tools-Encodes : Encodes tools
tools-Encodes = record {
  generates = λ n. (10 + n, refl);
  private_der = λ k. (k ∷ [], refl, refl);
  public_der = λ k. (k ∷ [], refl, refl);
  pem = λ type b. rw (take-prefix type b, drop-prefix type b) refl;
}

abbrev two : List KeyFiles
two =
    record { id = 1; private_file = 1 ∷ []; public_file = 2 ∷ [] }
    ∷ record { id = 2; private_file = 3 ∷ []; public_file = 4 ∷ [] }
    ∷ []

apart : AllDistinct (paths two)
apart = (
  ((λ e. cc), ((λ e. cc), ((λ e. cc), tt))),
  (((λ e. cc), ((λ e. cc), tt)), (((λ e. cc), tt), (tt, tt))),
)

generate_key_chain-load_example :
    (d' : Disk) × (rs : List ReplicaConf) × (generate_key_chain disk tools 0 two (λ p. none)
      ≡ (d', ok tt))
    × (load_pem_file disk tools two d' [] ≡ (rs, ok tt))
    × Issued tools 0 two rs
generate_key_chain-load_example =
    generate_key_chain-load disk tools 0 two (λ p. none) disk-Works tools-Encodes apart
