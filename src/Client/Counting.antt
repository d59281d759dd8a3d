-- ===== src/Client/Counting.antt =====
-- When the client takes a command for done.
use basic_hotstuff.Prelude.{
  ℕ, ◌+◌, ◌≤◌, ◌<◌, ◌≡◌, refl, List, [], ◌∷◌, ◌++◌, Option, none, some, true, false, Bytes, lookup,
  contains, bytes_eq, bytes_beq, bytes_beq_iff, ltb, length, length-append, if◌then◌else◌, arith,
  lookup-insert, lookup-erase, contains-insert, Bool-cases, ◌∙◌, inl, inr,
}
use basic_hotstuff.Client.{Response, Client, new_client, send_response, send_responses, add_result}

-- How often a command stands in a list.
abbrev pub count : Bytes → List Bytes → ℕ
count k [] = 0
count k (c ∷ cs) = (if bytes_beq c k then 1 else 0) + count k cs

-- How many responses are for a command.
abbrev pub responses : Bytes → List Response → ℕ
responses k [] = 0
responses k (r ∷ rs) = (if bytes_beq r.cmd k then 1 else 0) + responses k rs

abbrev stored : Option (List Bytes) → ℕ
stored none = 0
stored (some v) = length v

-- The state of one command after `j` responses for it.
record Tally (k : Bytes) (j : ℕ) (s : Client) : Type 0 where
  done : contains k s.done_map ≡ ltb s.f j
  kept : j ≤ s.f → stored (lookup k s.res_map) ≡ j
  signalled : count k s.signals ≡ (if ltb s.f j then 1 else 0)

add_result-Tally :
    (k : Bytes) (j : ℕ) (v : Option (List Bytes)) (res : Response) (s : Client)
    → 0 < s.f
    → lookup res.cmd s.res_map ≡ v
    → contains res.cmd s.done_map ≡ false
    → Tally k j s
    → Tally k ((if bytes_beq res.cmd k then 1 else 0) + j) (add_result v res s)
add_result-Tally k j none res s pos e fresh t = elim (Bool-cases (bytes_beq res.cmd k)) [
  | inl hit ↦
      let same : res.cmd ≡ k = (bytes_beq_iff res.cmd k).0 hit in
      let here : lookup k s.res_map ≡ none = rw (← same) e in
      let open_k : contains k s.done_map ≡ false = rw (← same) fresh in
      ground (arith, lookup-insert res.cmd k (res.result ∷ []) s.res_map)
  | inr miss ↦ ground (arith, lookup-insert res.cmd k (res.result ∷ []) s.res_map)
]
add_result-Tally k j (some v) res s pos e fresh t = elim (Bool-cases (bytes_beq res.cmd k)) [
  | inl hit ↦
      let same : res.cmd ≡ k = (bytes_beq_iff res.cmd k).0 hit in
      let here : lookup k s.res_map ≡ some v = rw (← same) e in
      let open_k : contains k s.done_map ≡ false = rw (← same) fresh in
      ground (
        arith,
        length-append v (res.result ∷ []),
        lookup-insert res.cmd k (v ++ res.result ∷ []) s.res_map,
        lookup-erase res.cmd k s.res_map,
        contains-insert res.cmd k true s.done_map,
      )
  | inr miss ↦ ground (
    arith,
    lookup-insert res.cmd k (v ++ res.result ∷ []) s.res_map,
    lookup-erase res.cmd k s.res_map,
    contains-insert res.cmd k true s.done_map,
  )
]

send_response-Tally :
    (k : Bytes) (j : ℕ) (res : Response) (s : Client)
    → 0 < s.f
    → Tally k j s
    → Tally k ((if bytes_beq res.cmd k then 1 else 0) + j) (send_response res s)
unfolding send_response
send_response-Tally k j res s pos t = elim (Bool-cases (contains res.cmd s.done_map)) [
  | inr fresh ↦ rw fresh (add_result-Tally k j (lookup res.cmd s.res_map) res s pos refl fresh t)
  | inl done ↦ rw done (elim (Bool-cases (bytes_beq res.cmd k)) [
    | inl hit ↦
        let same : res.cmd ≡ k = (bytes_beq_iff res.cmd k).0 hit in
        let done_k : contains k s.done_map ≡ true = rw (← same) done in ground arith
    | inr miss ↦ rw miss (ground arith)
  ])
]

send_response-f : (res : Response) (s : Client) → (send_response res s).f ≡ s.f
unfolding send_response
send_response-f res s = ground arith

send_responses-Tally :
    (k : Bytes) (rs : List Response) (j : ℕ) (s : Client)
    → 0 < s.f
    → Tally k j s
    → (Tally k (j + responses k rs) (send_responses rs s)) × ((send_responses rs s).f ≡ s.f)
unfolding send_responses
send_responses-Tally k [] j s pos t = (ground arith, refl)
send_responses-Tally k (r ∷ rs) j s pos t =
    let same = send_response-f r s in
    let (t', f') =
      send_responses-Tally k rs ((if bytes_beq r.cmd k then 1 else 0) + j) (send_response r s)
        (omega arith) (send_response-Tally k j r s pos t) in
    (ground arith, f' ∙ same)

-- However the responses of the replicas to different commands interleave, the client signals a
-- command once if more than F responses to it came, and not at all otherwise; F is positive, as it
-- is for four replicas or more.
pub signalled_once :
    (k : Bytes) (rs : List Response) (f : ℕ)
    → 0 < f
    → count k (send_responses rs (new_client f)).signals ≡ (if ltb f (responses k rs) then 1 else 0)
unfolding new_client
signalled_once k rs f pos =
    let start : Tally k 0 (new_client f) = unfold contains lookup in ground arith in
    let (t, same) = send_responses-Tally k rs 0 (new_client f) pos start in ground arith
