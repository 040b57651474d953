-- ===== src/Limiter/Manager/Concurrent/Capture.antt =====
-- A `Snapshot` of internal/limiter/manager.go while requests run: it copies the maps under `mu`,
-- and then reads the limiters one by one, each under the limiter's own mutex.
use mathlib.Core.Option
use token_bucket_rate_limite.Prelude.{
  ℕ, ◌≡◌, ◌↔◌, ◌⊎◌, inl, inr, refl, sym, subst, ◌∙◌, none, some, Option, [], ◌∷◌, String, str_eq,
  eq_iff, arith, get_elem?, Bool-cases,
}
use token_bucket_rate_limite.Prelude.Map.{
  GoMap, lookup, insert, collect, lookup-insert, lookup-collect-some, IsMap, insert-IsMap,
  collect-IsMap,
}
use token_bucket_rate_limite.Float.{Float}
use token_bucket_rate_limite.Limiter.Config.{Config}
use token_bucket_rate_limite.Limiter.Algorithm.{Limiter}
use token_bucket_rate_limite.Limiter.Persistence.{
  LimiterState, PersistedState, save_limiter, load_limiter, load_limiter-save_limiter,
}
use token_bucket_rate_limite.Limiter.Manager.{Manager, default_config, restore}
use token_bucket_rate_limite.Limiter.Manager.Pointers.{limiter_at_found, limiter_at-none}
use token_bucket_rate_limite.Limiter.Manager.View.{Client, view, config_of, IsValid}
use token_bucket_rate_limite.Limiter.Manager.Snapshots.{restore-view}
use token_bucket_rate_limite.Limiter.Manager.Agreement.{
  Suits, SuitsIfAny, IsConfigured, Reachable, Reachable-IsConfigured,
}
use token_bucket_rate_limite.Limiter.Manager.Concurrent.{Busy, Step, Reach}
use token_bucket_rate_limite.Limiter.Manager.Concurrent.Held.{Reach-IsOwned}
use token_bucket_rate_limite.Limiter.Manager.Concurrent.Agreeing.{
  SuitsAt, Step-SuitsAt, AllSuit, Reach-AllSuit, AllSuit-IsConfigured,
}

-- A snapshot on its way: the copied configs, the copied pointers that are still to be read, and the
-- states of the limiters that were read.
pub record Capture (F : Type 0) : Type 0 where
  pub configs : GoMap (Config F)
  pub pending : GoMap ℕ
  pub states : GoMap (LimiterState F)

module _ {F : Type 0} where
  abbrev pub copied : Manager F → Capture F
  copied m = record {
    configs = collect some m.configs;
    pending = collect some m.limiters;
    states = [];
  }

  abbrev pub read_one : Capture F → String → Limiter F → GoMap ℕ → Capture F
  read_one c id l rest = record c { pending = rest; states = insert id (save_limiter l) c.states }

  abbrev pub captured : Capture F → PersistedState F
  captured c = record { configs = c.configs; limiters = c.states }

module _ {F : Type 0} ⦃fl : Float F⦄ where
  -- The snapshots that begin in the state `start`, with the requests that run on meanwhile.
  pub data Capturing (start : Busy F) : Busy F → Capture F → Type 0 where
    copies : Capturing start start (copied start.manager)
    meanwhile :
        {s t : Busy F} {c : Capture F} → Capturing start s c → Step s t → Capturing start t c
    reads :
        {s : Busy F} {c : Capture F} (id : String) (p : ℕ) (rest : GoMap ℕ) (l : Limiter F)
        → Capturing start s c
        → c.pending ≡ (id, p) ∷ rest
        → get_elem? s.manager.heap p ≡ some l
        → Capturing start s (read_one c id l rest)

  module _ (start : Busy F) where
    abbrev pointers : GoMap ℕ
    pointers = start.manager.limiters

    abbrev config : String → Config F
    config j = config_of (view start.manager j)

    -- The client's limiter was read, and suits the config that it had at the start.
    abbrev WasRead : Capture F → String → Type 0
    WasRead c j =
        (p : ℕ) × (l : Limiter F) × (lookup j pointers ≡ some p)
        × (lookup j c.states ≡ some (save_limiter l))
        × Suits (config j) l

    abbrev IsPending : Capture F → String → Type 0
    IsPending c j = (lookup j c.pending ≡ lookup j pointers) × (lookup j c.states ≡ none)

    pub record IsUnderWay (s : Busy F) (c : Capture F) : Type 0 where
      pub configs : c.configs ≡ collect some start.manager.configs
      pending_map : IsMap c.pending
      states_map : IsMap c.states
      pub alive : (j : String) (p : ℕ) → lookup j pointers ≡ some p → SuitsAt s.manager p (config j)
      pub progress : (j : String) → IsPending c j ⊎ ((lookup j c.pending ≡ none) × WasRead c j)

    -- A pointer that is still to be read is the one that the client had at the start.
    pub first_pending :
        (s : Busy F) (c : Capture F)
        → IsUnderWay s c
        → (id : String) (p : ℕ) (rest : GoMap ℕ) → c.pending ≡ (id, p) ∷ rest
        → lookup id pointers ≡ some p
    unfolding lookup
    first_pending s c v id p rest first =
        let known : lookup id c.pending ≡ some p = rw first (ground (arith, eq_iff id id)) in
        elim (v.progress id) [ inl (same, unread) ↦ sym same ∙ known | inr (gone, was) ↦ cc ]

    module _ (s : Busy F) (c : Capture F) (v : IsUnderWay s c) (id : String) (p : ℕ)
        (rest : GoMap ℕ) (l : Limiter F) (first : c.pending ≡ (id, p) ∷ rest)
        (at : get_elem? s.manager.heap p ≡ some l) where
      first_read : (lookup id pointers ≡ some p) × Suits (config id) l
      first_read =
          let own = first_pending s c v id p rest first in
          let (l', at', suits) = v.alive id p own in
          let one : l' ≡ l = cc in (own, subst (Suits (config id)) one suits)

      reads-IsUnderWay : IsUnderWay s (read_one c id l rest)
      unfolding IsMap lookup
      reads-IsUnderWay =
          let (absent, rest_map) = rw first at (v.pending_map) in
          record {
            configs = v.configs;
            pending_map = rest_map;
            states_map = insert-IsMap id (save_limiter l) c.states v.states_map;
            alive = v.alive;
            progress = λ j. elim (Bool-cases (str_eq id j)) [
              | inl mine ↦
                  let is_j : id ≡ j = ground (arith, eq_iff id j) in
                  let (own, suits) = first_read in
                  let found = lookup-insert id id (save_limiter l) c.states in
                  subst
                    (λ k.
                      IsPending (read_one c id l rest) k
                      ⊎ ((lookup k rest ≡ none) × WasRead (read_one c id l rest) k))
                    is_j (inr (absent, (p, l, own, ground (arith, found, eq_iff id id), suits)))
              | inr other ↦
                  let stays : lookup j c.pending ≡ lookup j rest = rw first (rw other refl) in
                  let kept : lookup j (insert id (save_limiter l) c.states) ≡ lookup j c.states =
                    rw (lookup-insert, other) in
                  elim (v.progress j) [
                    | inl (same, unread) ↦ inl (sym stays ∙ same, kept ∙ unread)
                    | inr (gone, (p', l', own, is_saved, suits)) ↦
                        inr (sym stays ∙ gone, (p', l', own, kept ∙ is_saved, suits))
                  ]
            ];
          }

    module _ (valid : IsValid start.manager) (suits : AllSuit start.manager) where
      pub Capturing-IsUnderWay : {s : Busy F} {c : Capture F} → Capturing start s c → IsUnderWay s c
      unfolding IsMap lookup
      Capturing-IsUnderWay copies = record {
        configs = refl;
        pending_map = collect-IsMap some pointers;
        states_map = tt;
        alive = suits;
        progress = λ j. inl (lookup-collect-some j pointers valid.pointers.is_map, refl);
      }
      Capturing-IsUnderWay (meanwhile taking step) =
          let v = Capturing-IsUnderWay taking in
          record {
            configs = v.configs;
            pending_map = v.pending_map;
            states_map = v.states_map;
            alive = λ j p known. Step-SuitsAt p (config j) step (v.alive j p known);
            progress = v.progress;
          }
      Capturing-IsUnderWay (reads {s = s} {c = c} id p rest l taking first at) =
          reads-IsUnderWay s c (Capturing-IsUnderWay taking) id p rest l first at

      -- What a client has in the manager that is restored from a finished snapshot.
      abbrev IsCaptured : Option (Config F) → Option (Limiter F) → String → Type 0
      IsCaptured cfg o j =
          (cfg ≡ (view start.manager j).config)
          × SuitsIfAny (Option.get_or cfg default_config) o
          × ((o ≡ none) ↔ ((view start.manager j).limiter ≡ none))

      captured_lem :
          {s : Busy F} {c : Capture F} (j : String)
          → Capturing start s c
          → c.pending ≡ []
          → IsCaptured (lookup j c.configs) (Option.bind (lookup j c.states) load_limiter) j
      unfolding lookup Option.bind
      captured_lem {c = c} j taking ended =
          let v = Capturing-IsUnderWay taking in
          let same : lookup j c.configs ≡ lookup j start.manager.configs =
            rw (v.configs) (lookup-collect-some j start.manager.configs valid.configs_map) in
          let over : lookup j c.pending ≡ none = rw ended refl in
          elim (v.progress j) [
            | inl (left, unread) ↦
                let none_there =
                  limiter_at-none pointers start.manager.heap valid.pointers j (sym left ∙ over) in
                rw unread (same, tt, (λ e. none_there, λ e. refl))
            | inr (gone, (p, l, own, is_saved, good)) ↦
                let (before, at, there) =
                  limiter_at_found pointers start.manager.heap valid.pointers j p own in
                rw (is_saved, load_limiter-save_limiter) (same, rw same good, (λ e. cc, λ e. cc))
          ]

module _ {F : Type 0} ⦃fl : Float F⦄ where
  -- A snapshot of a manager that is taken while requests run and configs are set and removed, and
  -- restored into a valid manager: the result is valid, and each client has the config that it had
  -- when the snapshot began, a limiter exactly if it had one then, and that one has the algorithm
  -- and the numbers of this config, or of the default, whatever happened before it was read.
  pub restore-Capturing :
      (m other : Manager F) {start s : Busy F} {c : Capture F}
      → Reachable m
      → IsValid other
      → Reach m start
      → Capturing start s c
      → c.pending ≡ []
      → let restored = restore other (captured c) in
        IsValid restored
        × ((j : String)
            → ((view restored j).config ≡ (view start.manager j).config)
              × IsConfigured (view restored j)
              × (((view restored j).limiter ≡ none) ↔ ((view start.manager j).limiter ≡ none)))
  restore-Capturing m other {start = start} {c = c} reachable w reach taking ended =
      let (v, suits) = Reachable-IsConfigured m reachable in
      let (owner, o) = Reach-IsOwned m v reach in
      let all = Reach-AllSuit reach (AllSuit-IsConfigured m v suits) in
      let under = Capturing-IsUnderWay start o.valid all taking in
      let configs_map : IsMap c.configs =
        rw under.configs (collect-IsMap some start.manager.configs) in
      let (valid, seen) = restore-view other (captured c) w configs_map under.states_map in
      (
        valid,
        λ j.
            subst
              (λ (x : Client F).
                (x.config ≡ (view start.manager j).config)
                × IsConfigured x
                × ((x.limiter ≡ none) ↔ ((view start.manager j).limiter ≡ none)))
              (sym (seen j)) (captured_lem start o.valid all j taking ended),
      )
