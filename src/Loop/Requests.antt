-- ===== src/Loop/Requests.antt =====
-- internal/app/app.go: the requests and the ticks of the loop, and the cycles made for them.
use cloud_route_manager.Base.{
  ℕ, ◌+◌, ◌≤◌, ◌≡◌, Bool, true, false, ◌||◌, List, [], ◌∷◌, ◌++◌, arith, Bool-cases, inl, inr,
}
use cloud_route_manager.App.{Machine}
use cloud_route_manager.Loop.{
  Event, request, tick, refresh, scheduled, Loop, trigger, watching, Running, exited, Step,
  requests, ticks, refreshes, runs, ends,
}

abbrev pub is_request : Event → Bool
is_request request = true
is_request _ = false

abbrev pub is_tick : Event → Bool
is_tick tick = true
is_tick _ = false

abbrev pub is_refresh : Event → Bool
is_refresh refresh = true
is_refresh _ = false

abbrev pub is_scheduled : Event → Bool
is_scheduled scheduled = true
is_scheduled _ = false

abbrev pub bit : Bool → ℕ
bit true = 1
bit false = 0

abbrev pub count : (Event → Bool) → List Event → ℕ
count test [] = 0
count test (e ∷ es) = bit (test e) + count test es

abbrev pub some_refresh : List Event → Bool
some_refresh [] = false
some_refresh (e ∷ es) = is_refresh e || some_refresh es

module _ (World : Type 0) (m : Machine World) where
  -- The events by which the loop gets from one state to another.
  pub data Steps : Loop World → List Event → Loop World → Type 0 where
    stays : {l : Loop World} → Steps l [] l
    goes :
        {e : Event} {es : List Event} {l k k' : Loop World}
        → Step World m l e (watching k)
        → Steps k es k'
        → Steps l (e ∷ es) k'

  -- What one step keeps of the requests and the ticks.
  abbrev Kept : Loop World → Event → Running World → Type 0
  Kept l e (exited o) = Unit
  Kept l e (watching k) =
      (bit (is_refresh e) + bit k.pending ≤ bit (is_request e) + bit l.pending)
      × (bit (is_scheduled e) + bit k.ticked ≤ bit (is_tick e) + bit l.ticked)
      × (l.pending ≡ true → (is_refresh e || k.pending) ≡ true)

  Step-Kept : (l : Loop World) (e : Event) (r : Running World) → Step World m l e r → Kept l e r
  unfolding trigger
  Step-Kept l _ _ requests = ground arith
  Step-Kept l _ _ ticks = ground arith
  Step-Kept l _ _ (refreshes h r) = ground (arith, h)
  Step-Kept l _ _ (runs h r) = ground (arith, h)
  Step-Kept l _ _ ends = tt

  -- The loop makes no more cycles for requests than there are requests, counting one that is pending
  -- at the start, and no more scheduled cycles than there are ticks, counting one that stands in the
  -- ticker's channel at the start.
  pub Steps-bounded :
      (l k : Loop World) (es : List Event)
      → Steps l es k
      → (count is_refresh es + bit k.pending ≤ count is_request es + bit l.pending)
        × (count is_scheduled es + bit k.ticked ≤ count is_tick es + bit l.ticked)
  Steps-bounded _ _ _ stays = ground arith
  Steps-bounded _ _ _ (goes {e} {es} {l} {k} {k'} s ss) =
      let (a, b) = Steps-bounded k k' es ss in
      let (c, d, f) = Step-Kept l e (watching k) s in (omega (arith, a, c), omega (arith, b, d))

  -- What is pending stays so until the loop makes a cycle for a request.
  Steps-pending :
      (l k : Loop World) (es : List Event)
      → Steps l es k
      → l.pending ≡ true
      → (some_refresh es || k.pending) ≡ true
  Steps-pending _ _ _ stays h = h
  Steps-pending _ _ _ (goes {e} {es} {l} {k} {k'} s ss) h =
      let (c, d, f) = Step-Kept l e (watching k) s in
      elim (Bool-cases (is_refresh e)) [
        | inl r ↦ ground (arith, r)
        | inr r ↦ let g = Steps-pending k k' es ss (ground (arith, f h, r)) in ground (arith, g)
      ]

  -- Behind a request one is pending.
  asked-pending : (l k : Loop World) → Step World m l request (watching k) → k.pending ≡ true
  unfolding trigger
  asked-pending l _ requests = ground arith

  -- A request is never lost: behind a call of `Trigger`, wherever it stands among the events, the loop
  -- makes a cycle for a request, or one is pending in the end.
  pub Steps-served :
      (l k : Loop World) (before behind : List Event)
      → Steps l (before ++ (request ∷ behind)) k
      → (some_refresh behind || k.pending) ≡ true
  Steps-served _ _ [] behind (goes {e} {es} {l} {k} {k'} s ss) =
      Steps-pending k k' behind ss (asked-pending l k s)
  Steps-served _ _ (x ∷ before) behind (goes {e} {es} {l} {k} {k'} s ss) =
      Steps-served k k' before behind ss
