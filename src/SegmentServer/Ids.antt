-- ===== src/SegmentServer/Ids.antt =====
-- The IDs that the counter of the server gives.
use network_application.Base.{
  Distinct, ℕ, zero, suc, ◌+◌, ◌%◌, ◌^◌, ◌<◌, ◌≤◌, ◌≡◌, ◌≢◌, ◌∙◌, List, [], ◌∷◌, All, arith,
}
use network_application.SegmentServer.Members.{session_number, next_id, connection_id}

-- The session numbers of the next IDs of the counter.
unfoldable pub numbers : ℕ → ℕ → List ℕ
unfolding next_id connection_id session_number
numbers c zero = []
numbers c (suc n) = session_number (connection_id (next_id c)) ∷ numbers (next_id c) n

session_number-connection_id : (d : ℕ) → d < 2 ^ 32 → session_number (connection_id d) ≡ d
unfolding session_number connection_id
session_number-connection_id d h = ground arith

next_id-small : (c : ℕ) → next_id c < 2 ^ 32
unfolding next_id
next_id-small c = omega arith

next_id-mod : (c : ℕ) → next_id c ≡ (next_id c + 0) % 2 ^ 32
unfolding next_id
next_id-mod c = omega arith

next_id-ne : (c d o : ℕ) → d < 2 ^ 32 → c ≡ (d + o) % 2 ^ 32 → suc o < 2 ^ 32 → d ≢ next_id c
unfolding next_id
next_id-ne c d o h e small q = omega arith

next_id-step : (c d o : ℕ) → c ≡ (d + o) % 2 ^ 32 → next_id c ≡ (d + suc o) % 2 ^ 32
unfolding next_id
next_id-step c d o e = omega arith

-- The next numbers differ from `d`, where the counter is `o` steps past it.
numbers-far :
    (c d o n : ℕ)
    → d < 2 ^ 32
    → c ≡ (d + o) % 2 ^ 32
    → o + n < 2 ^ 32
    → All (λ j. d ≢ j) (numbers c n)
unfolding numbers
numbers-far c d o zero h e small = tt
numbers-far c d o (suc n) h e small =
    let same = session_number-connection_id (next_id c) (next_id-small c) in
    (
      λ q. next_id-ne c d o h e (omega arith) (q ∙ same),
      numbers-far (next_id c) d (suc o) n h (next_id-step c d o e) (omega arith),
    )

-- The IDs of any 2^32 calls in a row of the counter are distinct as session numbers, wherever the
-- counter stands, although its `int` wraps and the IDs are widened with their sign and cut again.
pub numbers-Distinct : (c n : ℕ) → n ≤ 2 ^ 32 → Distinct (numbers c n)
unfolding numbers
numbers-Distinct c zero h = tt
numbers-Distinct c (suc n) h =
    let same = session_number-connection_id (next_id c) (next_id-small c) in
    (
      rw same
          (numbers-far (next_id c) (next_id c) 0 n (next_id-small c) (next_id-mod c) (omega arith)),
      numbers-Distinct (next_id c) n (omega arith),
    )
