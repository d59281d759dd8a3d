-- ===== src/Client/Requests.antt =====
-- server/client.go: the loop that sends requests.
use basic_hotstuff.Prelude.{
  ℕ, zero, suc, ◌+◌, ◌/◌, ◌%◌, ◌^◌, ◌≤◌, ◌<◌, ◌≡◌, refl, List, [], ◌∷◌, false, Bytes, arith, length,
  length-append, ltb, if◌then◌else◌, Bool-cases, inl, inr, ap, ◌∙◌,
}
use mathlib.Core.List.{reverse, reverse-cons, Memᴰ}
use native.Mathlib.Nat.{pow-suc}

-- The last `w` decimal digits of a number, the lowest first.
unfoldable pub low_digits : ℕ → ℕ → Bytes
low_digits zero i = []
low_digits (suc w) i = (48 + i % 10) ∷ low_digits w (i / 10)

-- `fmt.Sprintf("%0100d", i)`, for a number of at most 100 digits.
unfoldable pub request_cmd : ℕ → Bytes
unfolding low_digits
request_cmd i = reverse (low_digits 100 i)

-- What the `select` of the loop may see: a response that counts, or the timer.
pub data Waited : Type 0 where
  answered timed_out : Waited

-- `SendRequests` from the request `i` on: the commands that it sends while it sees the given events;
-- it ends the program after request 20.
unfoldable pub send_requests : ℕ → List Waited → List Bytes
unfolding request_cmd
send_requests i [] = if ltb 20 i then [] else request_cmd i ∷ []
send_requests i (Waited.answered ∷ events) =
    let rest = send_requests (i + 1) events in if ltb 20 i then [] else request_cmd i ∷ rest
send_requests i (Waited.timed_out ∷ events) =
    let rest = send_requests i events in if ltb 20 i then [] else request_cmd i ∷ rest

-- How many of the events are answers.
abbrev pub answers : List Waited → ℕ
answers [] = 0
answers (Waited.answered ∷ events) = suc (answers events)
answers (Waited.timed_out ∷ events) = answers events

length-low_digits : (w i : ℕ) → length (low_digits w i) ≡ w
unfolding low_digits
length-low_digits zero i = refl
length-low_digits (suc w) i = omega (arith, length-low_digits w (i / 10))

low_digits-injective :
    (w i j : ℕ) → i < 10 ^ w → j < 10 ^ w → low_digits w i ≡ low_digits w j → i ≡ j
unfolding low_digits
low_digits-injective zero i j hi hj e = omega arith
low_digits-injective (suc w) i j hi hj e =
    let rest =
      low_digits-injective w (i / 10) (j / 10) (omega (arith, pow-suc 10 w))
        (omega (arith, pow-suc 10 w)) in
    ground arith

length-reverse : (l : Bytes) → length (reverse l) ≡ length l
length-reverse [] = refl
length-reverse (x ∷ l) =
    ap length (reverse-cons x l)
    ∙ (length-append (reverse l) (x ∷ []) ∙ omega (arith, length-reverse l))

-- The command of a request is 100 bytes long.
pub length-request_cmd : (i : ℕ) → length (request_cmd i) ≡ 100
unfolding request_cmd
length-request_cmd i = length-reverse (low_digits 100 i) ∙ length-low_digits 100 i

-- Every request up to 20 that the answers let the client reach is sent.
pub send_requests_all :
    (i k : ℕ) (events : List Waited)
    → i ≤ k
    → k ≤ 20
    → k ≤ i + answers events
    → Memᴰ (request_cmd k) (send_requests i events)
unfolding send_requests
send_requests_all i k [] low high reach =
    let here : ltb 20 i ≡ false = ground arith in
    let same : k ≡ i = omega arith in rw here (Memᴰ.head (ap request_cmd same))
send_requests_all i k (Waited.answered ∷ events) low high reach =
    let here : ltb 20 i ≡ false = ground arith in
    elim (Bool-cases (ltb i k)) [
      | inl e ↦
          rw here (Memᴰ.tail (send_requests_all (i + 1) k events (ground arith) high (omega arith)))
      | inr e ↦ let same : k ≡ i = ground arith in rw here (Memᴰ.head (ap request_cmd same))
    ]
send_requests_all i k (Waited.timed_out ∷ events) low high reach =
    let here : ltb 20 i ≡ false = ground arith in
    rw here (Memᴰ.tail (send_requests_all i k events low high reach))
