-- ===== src/OpenLineage/Storage/Laws.antt =====
-- What the wrapper does to the log, and what it raises.
use mathlib.Core.Option.{some-injective}
use community_integrations.Base.{
  subst, ◌≡◌, ◌⊎◌, inl, inr, refl, ap, arith, Bool, false, List, [], ◌∷◌, ◌++◌, Option, none, some,
  Option-cases, Bool-cases,
}
use community_integrations.Base.Action.{Action, for_each}
use community_integrations.OpenLineage.Event.{Event}
use community_integrations.OpenLineage.Storage.{
  Call, Memory, Wrapper, uncaught, dispatch_entry, store_event, store_event_batch,
}

module _ {E L : Type 0} (store : Option Event → Action E L) where
  -- The events that the other storage takes, up to the first one that it refuses.
  abbrev pub take_accepted :
      List (Option Event) → Option E → List (Option Event) → List (Option Event)
  take_accepted head none rest = head ++ rest
  take_accepted head (some e) rest = []

  unfoldable pub accepted : List (Option Event) → L → List (Option Event)
  accepted [] log = []
  accepted (entry ∷ entries) log =
      let (raised, next) = store entry log in
      take_accepted (entry ∷ []) raised (accepted entries next)

module _ {E W : Type 0} (emit : Call → Action E W) where
  -- Each event told in turn, whatever was raised before.
  unfoldable pub tell_all : List (Option Event) → Memory W → Memory W
  tell_all [] m = m
  tell_all (entry ∷ entries) m = tell_all entries (dispatch_entry emit entry m).1

  -- Every telling raises nothing, or an `Exception`.
  abbrev pub IsCaught : (E → Bool) → List (Option Event) → Memory W → Type 0
  IsCaught is_exception [] m = Unit
  IsCaught is_exception (entry ∷ entries) m =
      (uncaught is_exception (dispatch_entry emit entry m).0 ≡ none)
      × IsCaught is_exception entries (dispatch_entry emit entry m).1

module _ {E L W : Type 0} (is_exception : E → Bool) (store : Option Event → Action E L)
    (emit : Call → Action E W) where
  -- A batch that ended as the other storage ends it, with every event told that it took.
  abbrev pub IsTransparent : List (Option Event) → Wrapper L W → Option E × Wrapper L W → Type 0
  IsTransparent entries s (raised, t) =
      IsCaught emit is_exception (accepted store entries s.log) s.memory
      × (raised ≡ (for_each store entries s.log).0)
      × (t.log ≡ (for_each store entries s.log).1)
      × (t.memory ≡ tell_all emit (accepted store entries s.log) s.memory)

  -- A batch that was ended by what the telling of an event raised, which is no `Exception`. The event and
  -- those before it are stored, and those before it are told.
  abbrev pub IsAborted : List (Option Event) → Wrapper L W → Option E × Wrapper L W → Type 0
  IsAborted entries s (raised, t) =
      (before : List (Option Event)) × (entry : Option Event) × (rest : List (Option Event))
      × (e : E) × (entries ≡ before ++ entry ∷ rest)
      × IsCaught emit is_exception before s.memory
      × ((for_each store (before ++ entry ∷ []) s.log).0 ≡ none)
      × ((dispatch_entry emit entry (tell_all emit before s.memory)).0 ≡ some e)
      × (is_exception e ≡ false)
      × (raised ≡ some e)
      × (t.log ≡ (for_each store (before ++ entry ∷ []) s.log).1)
      × (t.memory ≡ tell_all emit (before ++ entry ∷ []) s.memory)

  uncaught-some :
      (raised : Option E) (e : E)
      → uncaught is_exception raised ≡ some e
      → (raised ≡ some e) × (is_exception e ≡ false)
  uncaught-some none e h = absurd (cc)
  uncaught-some (some d) e h = elim (Bool-cases (is_exception d)) [
    | inl caught ↦ absurd (ground (arith, caught))
    | inr free ↦
        let same : some d ≡ some e = ground (arith, free) in
        (same, subst (λ c. is_exception c ≡ false) (some-injective d e same) free)
  ]

  refused :
      (entry : Option Event) (entries : List (Option Event)) (s : Wrapper L W) (e : E)
      → (store entry s.log).0 ≡ some e
      → IsTransparent
          (entry ∷ entries)
          s
          (store_event_batch is_exception store emit (entry ∷ entries) s)
  unfolding store_event_batch for_each store_event accepted tell_all
  refused entry entries s e h = rw h (tt, refl, refl, refl)

  module _ (entry : Option Event) (entries : List (Option Event)) (s : Wrapper L W)
      (stored : (store entry s.log).0 ≡ none) where
    -- The wrapper once the event is stored and told.
    abbrev next : Wrapper L W
    next = record { log = (store entry s.log).1; memory = (dispatch_entry emit entry s.memory).1 }

    abbrev telling : Option E
    telling = (dispatch_entry emit entry s.memory).0

    went_on :
        uncaught is_exception telling ≡ none
        → store_event_batch is_exception store emit (entry ∷ entries) s
          ≡ store_event_batch is_exception store emit entries next
    unfolding store_event_batch for_each store_event
    went_on caught = rw (stored, caught) refl

    IsTransparent-on :
        uncaught is_exception telling ≡ none
        → (r : Option E × Wrapper L W) → IsTransparent entries next r
        → IsTransparent (entry ∷ entries) s r
    unfolding for_each accepted tell_all
    IsTransparent-on caught r (quiet, raised, log, memory) =
        rw stored ((caught, quiet), raised, log, memory)

    IsAborted-on :
        uncaught is_exception telling ≡ none
        → (r : Option E × Wrapper L W) → IsAborted entries next r
        → IsAborted (entry ∷ entries) s r
    unfolding for_each tell_all
    IsAborted-on caught r
          (before, last, rest, e, split, quiet, stored_all, raised, free, out, log, memory) =
        (
          entry ∷ before,
          last,
          rest,
          e,
          ap (λ es. entry ∷ es) split,
          (caught, quiet),
          rw stored stored_all,
          raised,
          free,
          out,
          rw stored log,
          memory,
        )

    IsAborted-here :
        (e : E)
        → uncaught is_exception telling ≡ some e
        → IsAborted
            (entry ∷ entries)
            s
            (store_event_batch is_exception store emit (entry ∷ entries) s)
    unfolding store_event_batch for_each store_event tell_all
    IsAborted-here e h =
        let (raised, free) = uncaught-some telling e h in
        (
          [],
          entry,
          entries,
          e,
          refl,
          tt,
          rw stored refl,
          raised,
          free,
          rw (stored, h) refl,
          rw (stored, h) refl,
          rw (stored, h) refl,
        )

  pub store_event_batch-IsTransparent :
      (entries : List (Option Event)) (s : Wrapper L W)
      → let r = store_event_batch is_exception store emit entries s in
        IsTransparent entries s r ⊎ IsAborted entries s r
  unfolding store_event_batch for_each accepted tell_all
  store_event_batch-IsTransparent [] s = inl (tt, refl, refl, refl)
  store_event_batch-IsTransparent (entry ∷ entries) s = elim (Option-cases (store entry s.log).0) [
    | inr (e, h) ↦ inl (refused entry entries s e h)
    | inl stored ↦
        elim (Option-cases (uncaught is_exception (dispatch_entry emit entry s.memory).0)) [
          | inr (e, h) ↦ inr (IsAborted-here entry entries s stored e h)
          | inl caught ↦
              rw (went_on entry entries s stored caught)
                (elim (store_event_batch-IsTransparent entries (next entry entries s stored)) [
                  | inl h ↦ inl (IsTransparent-on entry entries s stored caught _ h)
                  | inr h ↦ inr (IsAborted-on entry entries s stored caught _ h)
                ])
        ]
  ]
