-- ===== src/SegmentServer/Single/Maps.antt =====
-- Maps from numbers, as the proofs on a server's sessions and workers need them.
use network_application.Base.{
  ℕ, ◌<◌, ◌==◌, ==_iff, ◌≡◌, ◌≢◌, refl, List, [], ◌∷◌, ◌++◌, none, some, Bool-cases, inl, inr, ◌⊎◌,
  All, length, arith,
}
use network_application.Base.Table.{lookup, nat_eq, beq_ne}
use network_application.Worker.{Worker}
use network_application.SegmentServer.Shrinks.{Held, Shrinks}

-- The entry of one number.
one-eq :
    {V : Type 0} (i j : ℕ) (v w : V) (m : List (ℕ × V))
    → length m < 2
    → lookup i m ≡ some v
    → lookup j m ≡ some w
    → i ≡ j
unfolding lookup
one-eq i j v w [] h hi hj = cc
one-eq i j v w (p ∷ []) h hi hj = ground (arith, ==_iff p.0 i, ==_iff p.0 j)
one-eq i j v w (p ∷ q ∷ m) h hi hj = absurd (omega arith)

lookup-append :
    {V : Type 0} (i id : ℕ) (v w : V) (m : List (ℕ × V))
    → lookup i (m ++ (id, w) ∷ []) ≡ some v
    → ((u : V) × (lookup i m ≡ some u)) ⊎ (id ≡ i)
unfolding lookup
lookup-append i id v w [] h = elim (Bool-cases (id == i)) [
  | inl same ↦ inr ((==_iff id i).0 same)
  | inr differs ↦ absurd (let g = rw differs at h in cc)
]
lookup-append i id v w ((k, u) ∷ m) h = elim (Bool-cases (k == i)) [
  | inl same ↦ inl (u, rw same refl)
  | inr differs ↦ rw differs (lookup-append i id v w m (rw differs at h))
]

lookup-append_none :
    {V : Type 0} (k id : ℕ) (w : V) (m : List (ℕ × V))
    → lookup k m ≡ none
    → id ≢ k
    → lookup k (m ++ (id, w) ∷ []) ≡ none
unfolding lookup
lookup-append_none k id w [] h d = rw (beq_ne id k d) refl
lookup-append_none k id w ((j, u) ∷ m) h d = elim (Bool-cases (j == k)) [
  | inl same ↦ absurd (let g = rw same at h in cc)
  | inr differs ↦ rw differs (lookup-append_none k id w m (rw differs at h) d)
]

-- It leaves the other numbers without an entry.
pub All-append_none :
    {V : Type 0} (id : ℕ) (w : V) (m : List (ℕ × V)) (ks : List ℕ)
    → All (λ k. lookup k m ≡ none) ks
    → All (λ k. id ≢ k) ks
    → All (λ k. lookup k (m ++ (id, w) ∷ []) ≡ none) ks
All-append_none id w m [] h d = tt
All-append_none id w m (k ∷ ks) h d =
    (lookup-append_none k id w m h.0 d.0, All-append_none id w m ks h.1 d.1)

-- At most one number has a worker and a session.
abbrev pub Single : {V : Type 0} → List (ℕ × Worker) → List (ℕ × V) → Type 0
Single ws m = (i j : ℕ) → Held ws i → Held ws j → Held m i → Held m j → i ≡ j

module _ {V : Type 0} where
  pub Single-Shrinks :
      (ws : List (ℕ × Worker)) (m n : List (ℕ × V)) → Shrinks m n → Single ws m → Single ws n
  Single-Shrinks ws m n sh one i j vi vj hi hj = one i j vi vj (sh i hi) (sh j hj)

  -- What is new in the map has no worker.
  pub Single-grows :
      (ws : List (ℕ × Worker)) (m n : List (ℕ × V)) (id : ℕ)
      → lookup id ws ≡ none
      → ((j : ℕ) → Held n j → Held m j ⊎ (id ≡ j))
      → Single ws m
      → Single ws n
  Single-grows ws m n id free g one i j vi vj hi hj = elim (g i hi) [
    | inl a ↦ elim (g j hj) [ inl b ↦ one i j vi vj a b | inr e ↦ absurd (let f = vj.1 in cc) ]
    | inr e ↦ absurd (let f = vi.1 in cc)
  ]

  pub Single-small : (ws : List (ℕ × Worker)) (m : List (ℕ × V)) → length m < 2 → Single ws m
  Single-small ws m h i j vi vj hi hj = one-eq i j hi.0 hj.0 m h hi.1 hj.1
