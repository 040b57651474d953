-- ===== src/Limiter/Manager/Concurrent/Ending.antt =====
-- The loop of `Snapshot` in internal/limiter/manager.go over the limiters, while requests run.
use token_bucket_rate_limite.Prelude.{ℕ, suc, ◌≡◌, refl, some, [], ◌∷◌, String, length, get_elem?}
use token_bucket_rate_limite.Limiter.Algorithm.{Limiter}
use token_bucket_rate_limite.Prelude.Map.{GoMap}
use token_bucket_rate_limite.Float.{Float}
use token_bucket_rate_limite.Limiter.Manager.{Manager}
use token_bucket_rate_limite.Limiter.Manager.View.{IsValid}
use token_bucket_rate_limite.Limiter.Manager.Agreement.{Reachable, Reachable-IsConfigured}
use token_bucket_rate_limite.Limiter.Manager.Concurrent.{Busy, Reach}
use token_bucket_rate_limite.Limiter.Manager.Concurrent.Held.{Reach-IsOwned}
use token_bucket_rate_limite.Limiter.Manager.Concurrent.Agreeing.{
  AllSuit, Reach-AllSuit, AllSuit-IsConfigured,
}
use token_bucket_rate_limite.Limiter.Manager.Concurrent.Capture.{
  Capture, Capturing, reads, read_one, first_pending, Capturing-IsUnderWay,
}

-- The reads that are left of a snapshot, one after the other: each finds the limiter that the next
-- pointer leads to, and after the last there is no pointer left.
pub data Finishes {F : Type 0} (s : Busy F) : ℕ → Capture F → Capture F → Type 0 where
  nothing_left : {c : Capture F} → c.pending ≡ [] → Finishes s 0 c c
  next_read :
      {n : ℕ} {c ended : Capture F} (id : String) (p : ℕ) (rest : GoMap ℕ) (l : Limiter F)
      → c.pending ≡ (id, p) ∷ rest
      → get_elem? s.manager.heap p ≡ some l
      → Finishes s n (read_one c id l rest) ended
      → Finishes s (suc n) c ended

module _ {F : Type 0} ⦃fl : Float F⦄ where
  read_all :
      (start : Busy F) (s : Busy F)
      → IsValid start.manager
      → AllSuit start.manager
      → (pending : GoMap ℕ) (c : Capture F) → Capturing start s c
      → c.pending ≡ pending
      → (ended : Capture F) × Finishes s (length pending) c ended
        × Capturing start s ended
        × (ended.pending ≡ [])
  read_all start s valid all [] c taking e = (c, nothing_left e, taking, e)
  read_all start s valid all ((id, p) ∷ rest) c taking e =
      let v = Capturing-IsUnderWay start valid all taking in
      let (l, at, suits) = v.alive id p (first_pending start s c v id p rest e) in
      let (ended, left, taken, over) =
        read_all start s valid all rest (read_one c id l rest) (reads id p rest l taking e at)
          refl in
      (ended, next_read id p rest l e at left, taken, over)

  -- A snapshot of a manager in use that is being taken while requests run and configs are set and
  -- removed is never stuck: at every moment of it, the limiters that it has still to read are there
  -- to be read from the state as it then is, whatever happened before. As many reads as it has
  -- pointers left end it, and what it ends with is a snapshot that was begun in the same state.
  pub Capturing-ends :
      (m : Manager F) {start s : Busy F} {c : Capture F}
      → Reachable m
      → Reach m start
      → Capturing start s c
      → (ended : Capture F) × Finishes s (length c.pending) c ended
        × Capturing start s ended
        × (ended.pending ≡ [])
  Capturing-ends m {start = start} {s = s} {c = c} reachable reach taking =
      let (v, suits) = Reachable-IsConfigured m reachable in
      let (owner, o) = Reach-IsOwned m v reach in
      read_all start s o.valid (Reach-AllSuit reach (AllSuit-IsConfigured m v suits)) c.pending c
        taking refl
