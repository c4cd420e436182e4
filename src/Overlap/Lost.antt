-- ===== src/Overlap/Lost.antt =====
-- Two changes of one offer that overlap: both have read it before either writes.
use tristar.Base.{
  ℕ, suc, String, true, Option, some, List, [], ◌∷◌, ◌≡◌, refl, arith, sym, ◌∙◌, ap, eq_iff,
}
use mathlib.Core.Path.{subst}
use tristar.Outcome.{Result, ok, err, is_ok}
use tristar.Core.Security.{AuthUser}
use tristar.Models.Offer.{OfferBrief, OfferStatus, draft, approved, active, with_status}
use tristar.Hub.Store.{HubStore, HubStoreLaws, StoreError, View, IsStorable, GetSpec, UpdateSpec}
use tristar.Hub.Change.{Allowed, validate_transition-Allowed}
use tristar.Hub.Routes.{move}
use tristar.Hub.Routes.Lifecycle.{with_status-IsStorable}
use tristar.Designer.Routes.{DesignerState}
use tristar.Overlap.{
  Task, changing, writing_status, answered, offer, with_store, resume, Loop, wake, Event, arrive,
  resume_at, step, run,
}

-- In a good state, the calls of the store that a change makes are answered without an error.
abbrev pub Answers : (h : HubStore) → HubStoreLaws h → Type 0
Answers h l =
    ((id : String) (s : h.State) → l.IsGood s → is_ok (h.get id s).0 ≡ true)
    × ((o : OfferBrief) (s : h.State) → l.IsGood s → is_ok (h.update o s).0 ≡ true)

-- Two changes to approved, of which the second is carried out between the read and the write of the
-- first, and then one to active.
abbrev pub racing : AuthUser → String → List Event
racing user id =
    arrive (changing user id approved)
    ∷ arrive (changing user id approved)
    ∷ resume_at 1
    ∷ resume_at 0
    ∷ resume_at 0
    ∷ arrive (changing user id active)
    ∷ resume_at 0
    ∷ resume_at 0
    ∷ []

module _ (h : HubStore) (l : HubStoreLaws h) (answers : Answers h l) where
  open h use {State}

  -- A store in a good state, with an offer under an id.
  abbrev Has : String → OfferBrief → DesignerState State → Type 0
  Has id o s = l.IsGood s.hub.store × (l.view s.hub.store id ≡ some o)

  found_ok :
      (v v' : View) (id : String) (o : OfferBrief) (r : Result StoreError (Option OfferBrief))
      → is_ok r ≡ true
      → GetSpec v v' id r
      → v id ≡ some o
      → r ≡ ok (some o)
  found_ok v v' id o (ok found) yes_ok sp there = ap ok (sp.0 ∙ there)
  found_ok v v' id o (err e) yes_ok sp there = absurd (ground arith)

  written_ok :
      (v v' : View) (o : OfferBrief) (r : Result StoreError (Unit {0}))
      → is_ok r ≡ true
      → UpdateSpec v v' o r
      → v' o.offer_id ≡ some o
  written_ok v v' o (ok _) yes_ok sp =
      sp o.offer_id ∙ ground (arith, (eq_iff o.offer_id o.offer_id).1 refl)
  written_ok v v' o (err e) yes_ok sp = absurd (ground arith)

  reads_ok :
      (user : AuthUser) (id : String) (o : OfferBrief) (new : OfferStatus) (s : DesignerState State)
      → Allowed o.status new
      → Has id o s
      → (s' : DesignerState State) × (resume h (changing user id new) s
          ≡ (writing_status user id o new, s'))
        × Has id o s'
  unfolding resume
  reads_ok user id o new s allowed (g, there) =
      let (r, store) = h.get id s.hub.store in
      let sp = l.get_lem id s.hub.store g in
      let is =
        found_ok (l.view s.hub.store) (l.view store) id o r (answers.0 id s.hub.store g) sp there in
      let passed = (validate_transition-Allowed o.status new).1 allowed in
      let spec = subst (GetSpec (l.view s.hub.store) (l.view store) id) is sp in
      (
        with_store h s store,
        rw (is, passed) refl,
        (l.get-IsGood id s.hub.store g, spec.1 id ∙ there),
      )

  moved_ok :
      (user : AuthUser) (id : String) (o : OfferBrief) (new : OfferStatus)
      (r : Result StoreError (Unit {0})) (s : DesignerState State) (store : State)
      → is_ok r ≡ true
      → h.update (with_status new o) s.hub.store ≡ (r, store)
      → (s' : DesignerState State) × (resume h (writing_status user id o new) s
          ≡ (answered (offer (ok (with_status new o))), s'))
        × (s'.hub.store ≡ store)
  unfolding resume move
  moved_ok user id o new (ok _) s store yes_ok is =
      (record s { hub = (move h user id o new (ok tt) s.hub).1 }, rw is refl, rw is refl)
  moved_ok user id o new (err e) s store yes_ok is = absurd (ground arith)

  writes_ok :
      (user : AuthUser) (id : String) (o : OfferBrief) (new : OfferStatus) (s : DesignerState State)
      → IsStorable o
      → o.offer_id ≡ id
      → l.IsGood s.hub.store
      → (s' : DesignerState State) × (resume h (writing_status user id o new) s
          ≡ (answered (offer (ok (with_status new o))), s'))
        × Has id (with_status new o) s'
  writes_ok user id o new s st named g =
      let w = with_status new o in
      let ready = with_status-IsStorable new o st in
      let (r, store) = h.update w s.hub.store in
      let fine = answers.1 w s.hub.store g in
      let (s', e, is) = moved_ok user id o new r s store fine refl in
      let there =
        written_ok (l.view s.hub.store) (l.view store) w r fine
          (l.update_lem w s.hub.store ready g) in
      (
        s',
        e,
        (
          subst l.IsGood (sym is) (l.update-IsGood w s.hub.store ready g),
          subst (λ x. l.view x id ≡ some w) (sym is)
              (subst (λ i. l.view store i ≡ some w) named there),
        ),
      )

  abbrev looped : List Task → DesignerState State → Loop h
  looped tasks s = record { tasks = tasks; state = s }

  arrives :
      (t : Task) (tasks : List Task) (s : DesignerState State)
      → step h (arrive t) (looped tasks s) ≡ looped (t ∷ tasks) s
  unfolding step
  arrives t tasks s = refl

  wakes_first :
      (t : Task) (tasks : List Task) (s : DesignerState State) (t' : Task)
      (s' : DesignerState State)
      → resume h t s ≡ (t', s')
      → step h (resume_at 0) (looped (t ∷ tasks) s) ≡ looped (t' ∷ tasks) s'
  unfolding step wake
  wakes_first t tasks s t' s' e = rw e refl

  wakes_later :
      (i : ℕ) (t : Task) (tasks : List Task) (s : DesignerState State) (tasks' : List Task)
      (s' : DesignerState State)
      → step h (resume_at i) (looped tasks s) ≡ looped tasks' s'
      → step h (resume_at (suc i)) (looped (t ∷ tasks) s) ≡ looped (t ∷ tasks') s'
  unfolding step wake
  wakes_later i t tasks s tasks' s' e = ap (λ (m : Loop h). looped (t ∷ m.tasks) m.state) e

  next :
      (e : Event) (events : List Event) (m m' m'' : Loop h)
      → step h e m ≡ m'
      → run h events m' ≡ m''
      → run h (e ∷ events) m ≡ m''
  unfolding run
  next e events m m' m'' one rest = ap (run h events) one ∙ rest

  last : (e : Event) (m m' : Loop h) → step h e m ≡ m' → run h (e ∷ []) m ≡ m'
  unfolding run
  last e m m' one = one

  -- Where the calls of the store are answered, a change of status to approved that is overtaken between its
  -- read and its write sets back an offer that another caller has made active in the meantime, and is
  -- answered like any other change.
  pub lost_update :
      (user : AuthUser) (id : String) (o : OfferBrief) (s : DesignerState State)
      → l.IsGood s.hub.store
      → l.view s.hub.store id ≡ some o
      → o.status ≡ draft
      → let m = run h (racing user id) (looped [] s) in
        let m' = step h (resume_at 2) m in
        (l.view m.state.hub.store id ≡ some (with_status active o))
        × (l.view m'.state.hub.store id ≡ some (with_status approved o))
        × (m'.tasks
            ≡ answered (offer (ok (with_status active o)))
              ∷ answered (offer (ok (with_status approved o)))
              ∷ answered (offer (ok (with_status approved o)))
              ∷ [])
  lost_update user id o s g there old =
      let st = l.view-IsStorable id s.hub.store g there in
      let named = l.view-id id s.hub.store g there in
      let may = subst (λ (x : OfferStatus). Allowed x approved) (sym old) Allowed.approve in
      let p = with_status approved o in
      let (s₁, e₁, h₁) = reads_ok user id o approved s may (g, there) in
      let (s₂, e₂, h₂) = reads_ok user id o approved s₁ may h₁ in
      let (s₃, e₃, h₃) = writes_ok user id o approved s₂ st named h₂.0 in
      let (s₄, e₄, h₄) = reads_ok user id p active s₃ Allowed.activate h₃ in
      let (s₅, e₅, h₅) =
        writes_ok user id p active s₄ (with_status-IsStorable approved o st) named h₄.0 in
      let (s₆, e₆, h₆) = writes_ok user id o approved s₅ st named h₅.0 in
      let a = changing user id approved in
      let c = changing user id active in
      let wa = writing_status user id o approved in
      let done = answered (offer (ok p)) in
      let wc = writing_status user id p active in
      let late = done ∷ wa ∷ [] in
      let done_c = answered (offer (ok (with_status active o))) in
      let raced : run h (racing user id) (looped [] s) ≡ looped (done_c ∷ late) s₅ =
        next _ _ (looped [] s) (looped (a ∷ []) s) _ (arrives a [] s) (
          next _ _ _ (looped (a ∷ a ∷ []) s) _ (arrives a (a ∷ []) s) (
            next _ _ _ (looped (a ∷ wa ∷ []) s₁) _
              (wakes_later 0 a (a ∷ []) s (wa ∷ []) s₁ (wakes_first a [] s wa s₁ e₁))
              (next _ _ _ (looped (wa ∷ wa ∷ []) s₂) _ (wakes_first a (wa ∷ []) s₁ wa s₂ e₂) (
                next _ _ _ (looped late s₃) _ (wakes_first wa (wa ∷ []) s₂ done s₃ e₃) (
                  next _ _ _ (looped (c ∷ late) s₃) _ (arrives c late s₃) (
                    next _ _ _ (looped (wc ∷ late) s₄) _ (wakes_first c late s₃ wc s₄ e₄)
                      (last _ _ _ (wakes_first wc late s₄ done_c s₅ e₅)))))))) in
      let set_back : step h (resume_at 2) (looped (done_c ∷ late) s₅)
          ≡ looped (done_c ∷ done ∷ done ∷ []) s₆ =
        wakes_later 1 done_c late s₅ (done ∷ done ∷ []) s₆
          (wakes_later 0 done (wa ∷ []) s₅ (done ∷ []) s₆ (wakes_first wa [] s₅ done s₆ e₆)) in
      rw (raced, set_back) (h₅.1, h₆.1, refl)
