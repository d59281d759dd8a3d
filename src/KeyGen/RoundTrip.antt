-- ===== src/KeyGen/RoundTrip.antt =====
-- Key files that are generated and then loaded.
use mathlib.Core.List.{append_assoc, append-nil}
use basic_hotstuff.Prelude.{
  ℕ, suc, ◌≡◌, ◌≢◌, refl, sym, ◌∙◌, ap, List, [], ◌∷◌, ◌++◌, some, true, Bytes, ok, All, ◌%◌,
}
use basic_hotstuff.Encoding.{u32_mod}
use basic_hotstuff.KeyGen.{
  private_key_file_type, public_key_file_type, Os, KeyTools, KeyFiles, ReplicaConf, ecdsa_key,
  generate_key_chain, load_pem_file, load_replica, private_key_to_pem, public_key_to_pem,
  read_private_key_file, read_public_key_file, parse_private_key, parse_public_key, write_pair,
  write_private_key_file, write_public_key_file, write_key_file, write_opened, close_after,
  write_pem, or_panic,
}

-- Calls without an error, and what they do to the file named and to the others.
pub record Works {D : Type 0} (os : Os D) : Type 0 where
  pub opens : (p : Bytes) (d : D) → (os.open_file p d).1 ≡ true
  pub writes : (p b : Bytes) (d : D) → (os.write_file p b d).1 ≡ true
  pub closes : (p : Bytes) (d : D) → (os.close_file p d).1 ≡ true
  pub truncated : (p : Bytes) (d : D) → os.read_file p (os.open_file p d).0 ≡ some []
  pub written :
      (p b : Bytes) (d : D)
      → os.read_file p d ≡ some []
      → os.read_file p (os.write_file p b d).0 ≡ some b
  pub closed : (p q : Bytes) (d : D) → os.read_file q (os.close_file p d).0 ≡ os.read_file q d
  pub open_other :
      (p q : Bytes) (d : D) → q ≢ p → os.read_file q (os.open_file p d).0 ≡ os.read_file q d
  pub write_other :
      (p q b : Bytes) (d : D) → q ≢ p → os.read_file q (os.write_file p b d).0 ≡ os.read_file q d

-- The generator draws keys, x509 and PEM encode them, and decode what they encoded.
pub record Encodes (t : KeyTools) : Type 0 where
  pub generates : (n : ℕ) → (k : ℕ) × (t.generate_key n ≡ some k)
  pub private_der :
      (k : ℕ) → (b : Bytes) × (t.marshal_private k ≡ some b) × (t.parse_private b ≡ some k)
  pub public_der :
      (k : ℕ)
      → (b : Bytes) × (t.marshal_public k ≡ some b) × (t.parse_public b ≡ some (ecdsa_key k))
  pub pem : (type b : Bytes) → t.pem_decode (t.pem_encode type b) ≡ some (type, b)

abbrev NotIn : Bytes → List Bytes → Type 0
NotIn q ps = All (λ p. q ≢ p) ps

abbrev pub AllDistinct : List Bytes → Type 0
AllDistinct [] = Unit
AllDistinct (p ∷ ps) = NotIn p ps × AllDistinct ps

abbrev pub paths : List KeyFiles → List Bytes
paths [] = []
paths (c ∷ cs) = c.private_file ∷ c.public_file ∷ paths cs

-- `r` has the n-th key, and both encodings of the pair.
pub record KeyOf (t : KeyTools) (n : ℕ) (c : KeyFiles) (r : ReplicaConf) : Type 0 where
  pub id : r.id ≡ c.id % u32_mod
  pub conf : r.conf ≡ c
  pub drawn : t.generate_key n ≡ some r.pri_key
  pub pair : r.pub_key ≡ ecdsa_key (t.public_of r.pri_key)
  pub private_pem : private_key_to_pem t r.pri_key ≡ ok r.private_key
  pub public_pem : public_key_to_pem t r.pub_key ≡ ok r.public_key

abbrev pub Issued : KeyTools → ℕ → List KeyFiles → List ReplicaConf → Type 0
Issued t n [] [] = Unit
Issued t n [] (r ∷ rs) = ⊥
Issued t n (c ∷ cs) [] = ⊥
Issued t n (c ∷ cs) (r ∷ rs) = KeyOf t n c r × Issued t (suc n) cs rs

module _ {D : Type 0} (os : Os D) (works : Works os) where
  -- What a write leaves on the disk.
  record Wrote (p b : Bytes) (d d' : D) : Type 0 where
    holds : os.read_file p d' ≡ some b
    others : (q : Bytes) → q ≢ p → os.read_file q d' ≡ os.read_file q d

  write_key_file-Wrote :
      (p b : Bytes) (d : D)
      → (d' : D) × (write_key_file os p (ok b) d ≡ (d', ok tt)) × Wrote p b d d'
  unfolding write_key_file write_opened close_after write_pem
  write_key_file-Wrote p b d =
      let d1 = (os.open_file p d).0 in
      let d2 = (os.write_file p b d1).0 in
      let d3 = (os.close_file p d2).0 in
      (
        d3,
        rw (works.opens p d, works.writes p b d1, works.closes p d2) refl,
        record {
          holds = works.closed p p d2 ∙ works.written p b d1 (works.truncated p d);
          others = λ q ne.
              works.closed p q d2 ∙ (works.write_other p q b d1 ne ∙ works.open_other p q d ne);
        },
      )

-- The n-th key with its two texts.
record Texts (t : KeyTools) (n : ℕ) : Type 0 where
  key : ℕ
  private_text : Bytes
  public_text : Bytes
  drawn : t.generate_key n ≡ some key
  private_pem : private_key_to_pem t key ≡ ok private_text
  public_pem : public_key_to_pem t (ecdsa_key (t.public_of key)) ≡ ok public_text
  private_read : parse_private_key t private_text ≡ ok key
  public_read : parse_public_key t public_text ≡ ok (ecdsa_key (t.public_of key))

texts : (t : KeyTools) → Encodes t → (n : ℕ) → Texts t n
unfolding private_key_to_pem public_key_to_pem parse_private_key parse_public_key
texts t enc n =
    let (k, ek) = enc.generates n in
    let (pri, mpri, ppri) = enc.private_der k in
    let (key, mkey, pkey) = enc.public_der (t.public_of k) in
    record {
      key = k;
      private_text = t.pem_encode private_key_file_type pri;
      public_text = t.pem_encode public_key_file_type key;
      drawn = ek;
      private_pem = rw mpri refl;
      public_pem = rw mkey refl;
      private_read = rw (enc.pem private_key_file_type pri, ppri) refl;
      public_read = rw (enc.pem public_key_file_type key, pkey) refl;
    }

module _ {D : Type 0} (os : Os D) (t : KeyTools) where
  -- The two files of a replica have the n-th key.
  abbrev Holds : (n : ℕ) → Texts t n → KeyFiles → D → Type 0
  Holds n x c d =
      (os.read_file c.private_file d ≡ some x.private_text)
      × (os.read_file c.public_file d ≡ some x.public_text)

  private_key-read :
      (n : ℕ) (x : Texts t n) (p : Bytes) (d : D)
      → os.read_file p d ≡ some x.private_text
      → read_private_key_file os t p d ≡ ok x.key
  unfolding read_private_key_file
  private_key-read n x p d h = rw (h, x.private_read) refl

  public_key-read :
      (n : ℕ) (x : Texts t n) (p : Bytes) (d : D)
      → os.read_file p d ≡ some x.public_text
      → read_public_key_file os t p d ≡ ok (ecdsa_key (t.public_of x.key))
  unfolding read_public_key_file
  public_key-read n x p d h = rw (h, x.public_read) refl

  load_replica-KeyOf :
      (n : ℕ) (x : Texts t n) (c : KeyFiles) (d : D)
      → Holds n x c d
      → (r : ReplicaConf) × (load_replica os t c d ≡ ok r) × KeyOf t n c r
  unfolding load_replica
  load_replica-KeyOf n x c d h = (
    record {
      id = c.id % u32_mod;
      conf = c;
      private_key = x.private_text;
      public_key = x.public_text;
      pri_key = x.key;
      pub_key = ecdsa_key (t.public_of x.key);
    },
    rw
        (
          private_key-read n x c.private_file d h.0,
          public_key-read n x c.public_file d h.1,
          x.private_pem,
          x.public_pem,
        )
        refl,
    record {
      id = refl;
      conf = refl;
      drawn = x.drawn;
      pair = refl;
      private_pem = x.private_pem;
      public_pem = x.public_pem;
    },
  )

  write_pair-Holds :
      Works os
      → (n : ℕ) (x : Texts t n) (c : KeyFiles) (d : D) → c.private_file ≢ c.public_file
      → (d' : D) × (write_pair os t x.key c d ≡ (d', ok tt))
        × Holds n x c d'
        × ((q : Bytes)
            → q ≢ c.private_file
            → q ≢ c.public_file
            → os.read_file q d' ≡ os.read_file q d)
  unfolding write_pair write_private_key_file write_public_key_file or_panic
  write_pair-Holds works n x c d ne =
      let (d1, e1, w1) = write_key_file-Wrote os works c.private_file x.private_text d in
      let (d2, e2, w2) = write_key_file-Wrote os works c.public_file x.public_text d1 in
      (
        d2,
        rw (x.private_pem, e1, x.public_pem, e2) refl,
        (w2.others c.private_file ne ∙ w1.holds, w2.holds),
        λ q not_private not_public. w2.others q not_public ∙ w1.others q not_private,
      )

  module _ (enc : Encodes t) where
    abbrev Stored : ℕ → List KeyFiles → D → Type 0
    Stored n [] d = Unit
    Stored n (c ∷ cs) d = Holds n (texts t enc n) c d × Stored (suc n) cs d

    generate_key_chain-Stored :
        Works os
        → (n : ℕ) (cs : List KeyFiles) (d : D) → AllDistinct (paths cs)
        → (d' : D) × (generate_key_chain os t n cs d ≡ (d', ok tt))
          × Stored n cs d'
          × ((q : Bytes) → NotIn q (paths cs) → os.read_file q d' ≡ os.read_file q d)
    unfolding generate_key_chain or_panic
    generate_key_chain-Stored works n [] d apart = (d, refl, tt, λ q out. refl)
    generate_key_chain-Stored works n (c ∷ cs) d ((ne, out_pri), (out_pub, apart)) =
        let x = texts t enc n in
        let (d1, e1, h1, o1) = write_pair-Holds works n x c d ne in
        let (d2, e2, h2, o2) = generate_key_chain-Stored works (suc n) cs d1 apart in
        (
          d2,
          rw (x.drawn, e1, e2) refl,
          ((o2 c.private_file out_pri ∙ h1.0, o2 c.public_file out_pub ∙ h1.1), h2),
          λ q out. o2 q out.1.1 ∙ o1 q out.0 out.1.0,
        )

    load_pem_file-Issued :
        (n : ℕ) (cs : List KeyFiles) (d : D) (loaded : List ReplicaConf)
        → Stored n cs d
        → (rs : List ReplicaConf) × (load_pem_file os t cs d loaded ≡ (loaded ++ rs, ok tt))
          × Issued t n cs rs
    unfolding load_pem_file
    load_pem_file-Issued n [] d loaded held =
        ([], ap (λ l. (l, ok tt)) (sym (append-nil loaded)), tt)
    load_pem_file-Issued n (c ∷ cs) d loaded held =
        let (r, e, k) = load_replica-KeyOf n (texts t enc n) c d held.0 in
        let (rs, es, ks) = load_pem_file-Issued (suc n) cs d (loaded ++ (r ∷ [])) held.1 in
        (r ∷ rs, rw e (es ∙ ap (λ l. (l, ok tt)) (append_assoc loaded (r ∷ []) rs)), (k, ks))

-- With files, a generator and encodings that return no error and do what they document, and no path
-- twice in the configuration: GenerateKeyChain returns, and LoadPemFile then gives each replica, in
-- order, its id, a key pair of its own draw with matching halves, and the texts of both.
pub generate_key_chain-load :
    {D : Type 0} (os : Os D) (t : KeyTools) (n : ℕ) (cs : List KeyFiles) (d : D)
    → Works os
    → Encodes t
    → AllDistinct (paths cs)
    → (d' : D) × (rs : List ReplicaConf) × (generate_key_chain os t n cs d ≡ (d', ok tt))
      × (load_pem_file os t cs d' [] ≡ (rs, ok tt))
      × Issued t n cs rs
generate_key_chain-load os t n cs d works enc apart =
    let (d', generated, held, others) = generate_key_chain-Stored os t enc works n cs d apart in
    let (rs, loaded, issued) = load_pem_file-Issued os t enc n cs d' [] held in
    (d', rs, generated, loaded, issued)
