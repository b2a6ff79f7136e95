-- ===== src/SegmentServer/Single/Invariant.antt =====
-- The invariant behind the one served client of a server with multiConnect = false.
use network_application.Base.{
  Distinct, ℕ, ◌≡◌, ◌≢◌, refl, ◌∙◌, Bool, true, false, List, ◌∷◌, none, if◌then◌else◌, All,
}
use network_application.Base.Table.{lookup, nat_eq}
use network_application.Worker.{Worker}
use network_application.SegmentServer.Members.{
  sessions_of, SegmentServer, Place, outside, testing, adding, null_pointer, session_number,
}
use network_application.SegmentServer.Loop.{begin_loop, turn}
use network_application.SegmentServer.Shrinks.{Shrinks}
use network_application.SegmentServer.Single.Maps.{Single, Single-Shrinks}

-- The number under which a client is being added.
abbrev pub Pending : Place → (ℕ → Type 0) → Type 0
Pending (adding k) P = P k
Pending _ P = Unit

-- The invariant, with the numbers that are still to be given.
pub record Inv {Socket : Type 0} (s : SegmentServer Socket) (rest : List ℕ) : Type 0 where
  pub multi : s.multi_connect ≡ false
  pub single : Single s.session_workers (sessions_of s.session_manager)
  pub distinct : Distinct rest
  pub free : All (λ k. lookup k s.session_workers ≡ none) rest
  pub pending : Pending s.place (λ k. (lookup k s.session_workers ≡ none) × All (λ j. k ≢ j) rest)

pub same : {V : Type 0} (m : List (ℕ × V)) → Shrinks m m
same m j h = h

Pending-tail :
    (p : Place) (ws : List (ℕ × Worker)) (n : ℕ) (rest : List ℕ)
    → Pending p (λ k. (lookup k ws ≡ none) × All (λ j. k ≢ j) (n ∷ rest))
    → Pending p (λ k. (lookup k ws ≡ none) × All (λ j. k ≢ j) rest)
Pending-tail outside ws n rest h = tt
Pending-tail testing ws n rest h = tt
Pending-tail (adding k) ws n rest h = (h.0, h.1.1)
Pending-tail null_pointer ws n rest h = tt

module _ {Socket : Type 0} where
  pub Inv-with :
      (s t : SegmentServer Socket) (rest : List ℕ)
      → t.multi_connect ≡ s.multi_connect
      → t.session_workers ≡ s.session_workers
      → Pending t.place (λ k. (lookup k s.session_workers ≡ none) × All (λ j. k ≢ j) rest)
      → Shrinks (sessions_of s.session_manager) (sessions_of t.session_manager)
      → Inv s rest
      → Inv t rest
  Inv-with s t rest m w p sh v = record {
    multi = m ∙ v.multi;
    single = rw w (
        Single-Shrinks s.session_workers (sessions_of s.session_manager)
          (sessions_of t.session_manager) sh v.single);
    distinct = v.distinct;
    free = rw w v.free;
    pending = rw w p;
  }

  pub Inv-if :
      (b : Bool) (s t : SegmentServer Socket) (rest : List ℕ)
      → Inv s rest
      → Inv t rest
      → Inv (if b then s else t) rest
  Inv-if true s t rest v w = v
  Inv-if false s t rest v w = w

  -- The same where the test holds or not.
  pub Inv-test :
      (b : Bool) (s t : SegmentServer Socket) (rest : List ℕ)
      → (b ≡ true → Inv s rest)
      → (b ≡ false → Inv t rest)
      → Inv (if b then s else t) rest
  Inv-test true s t rest v w = v refl
  Inv-test false s t rest v w = w refl

  Inv-tail : (s : SegmentServer Socket) (n : ℕ) (rest : List ℕ) → Inv s (n ∷ rest) → Inv s rest
  Inv-tail s n rest v = record {
    multi = v.multi;
    single = v.single;
    distinct = v.distinct.1;
    free = v.free.1;
    pending = Pending-tail s.place s.session_workers n rest v.pending;
  }

  pub begin_loop-Inv :
      (s : SegmentServer Socket) (rest : List ℕ) (p : Place)
      → Inv s rest
      → Inv (begin_loop s p) rest
  unfolding begin_loop
  begin_loop-Inv s rest outside v =
      Inv-if _ (record s { place = testing }) s rest (Inv-with s _ rest refl refl tt (same _) v) v
  begin_loop-Inv s rest testing v = v
  begin_loop-Inv s rest (adding k) v = v
  begin_loop-Inv s rest null_pointer v = v

  pub turn-Inv :
      (s : SegmentServer Socket) (id : ℕ) (rest : List ℕ) (p : Place)
      → Inv s (session_number id ∷ rest)
      → Inv (turn s id p) rest
  unfolding turn
  turn-Inv s id rest testing v =
      let u = Inv-tail s (session_number id) rest v in
      Inv-if s.is_work _ _ rest (Inv-with s _ rest refl refl (v.free.0, v.distinct.0) (same _) u)
        (Inv-with s _ rest refl refl tt (same _) u)
  turn-Inv s id rest outside v = Inv-tail s (session_number id) rest v
  turn-Inv s id rest (adding k) v = Inv-tail s (session_number id) rest v
  turn-Inv s id rest null_pointer v = Inv-tail s (session_number id) rest v
