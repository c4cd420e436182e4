-- ===== src/Overlap/Life.antt =====
-- Tasks that overlap and the life of an offer.
use tristar.Base.{ℕ, zero, suc, String, List, [], ◌∷◌, inl, refl, All, All-map}
use tristar.Hub.Store.{HubStore, HubStoreLaws, View, IsStorable}
use tristar.Hub.Change.{Changes, unchanged}
use tristar.Designer.Routes.{DesignerState}
use tristar.System.Life.{Progress, Progress-trans, Change-Progress}
use tristar.Overlap.{
  Task, saving, reading, generated, changing, writing_status, approving, writing_approval, sweeping,
  expiring, answered, resume, Loop, wake, Event, arrive, resume_at, step, run,
}
use tristar.Overlap.Knowledge.{Distinct, Knows, Knows-stable, IsFromClaude}
use tristar.Overlap.Steps.{Steps, reads}
use tristar.Overlap.Steps.Saves.{saving-Steps, generated-Steps}
use tristar.Overlap.Steps.Reads.{reading-Steps, listing-Steps}
use tristar.Overlap.Steps.Moves.{changing-Steps, writing_status-Steps}
use tristar.Overlap.Steps.Approvals.{approving-Steps, writing_approval-Steps}
use tristar.Overlap.Steps.Sweeps.{sweeping-Steps, expiring-Steps}

-- A task as it may arrive: at the start of its handler, with a body that passed validation.
abbrev pub Starts : Task → Type 0
Starts (saving user o) = IsStorable o
Starts (reading user id) = Unit {0}
Starts (Task.listing status member trigger since) = Unit {0}
Starts (generated user r) = IsFromClaude r
Starts (changing user id new) = Unit {0}
Starts (approving user id o) = IsStorable o
Starts (sweeping now) = Unit {0}
Starts _ = ⊥

Starts-Knows : (v : View) (t : Task) → Starts t → Knows v t
Starts-Knows v (saving user o) k = k
Starts-Knows v (reading user id) k = tt
Starts-Knows v (Task.listing status member trigger since) k = tt
Starts-Knows v (generated user r) k = k
Starts-Knows v (changing user id new) k = tt
Starts-Knows v (writing_status user id o new) k = absurd k
Starts-Knows v (approving user id o) k = k
Starts-Knows v (writing_approval user id o) k = absurd k
Starts-Knows v (sweeping now) k = tt
Starts-Knows v (expiring now o offers n) k = absurd k
Starts-Knows v (answered r) k = absurd k

-- No two tasks change or approve one offer.
abbrev pub Apart : List Task → Type 0
Apart [] = Unit {0}
Apart (t ∷ tasks) = All (Distinct t) tasks × Apart tasks

module _ (h : HubStore) (l : HubStoreLaws h) where
  open h use {State}

  resume-Steps :
      (t : Task) (s : DesignerState State)
      → Knows (l.view s.hub.store) t
      → l.IsGood s.hub.store
      → Steps h l t s.hub.store (resume h t s).0 (resume h t s).1.hub.store
  resume-Steps (saving user o) s k g = saving-Steps h l user o s k g
  resume-Steps (reading user id) s k g = reading-Steps h l user id s g
  resume-Steps (Task.listing status member trigger since) s k g =
      listing-Steps h l status member trigger since s g
  resume-Steps (generated user r) s k g = generated-Steps h l user r s k g
  resume-Steps (changing user id new) s k g = changing-Steps h l user id new s g
  resume-Steps (writing_status user id o new) s k g = writing_status-Steps h l user id o new s k g
  resume-Steps (approving user id o) s k g = approving-Steps h l user id o s k g
  resume-Steps (writing_approval user id o) s k g = writing_approval-Steps h l user id o s k g
  resume-Steps (sweeping now) s k g = sweeping-Steps h l now s g
  resume-Steps (expiring now o offers n) s k g = expiring-Steps h l now o offers n s k g
  resume-Steps (answered r) s k g =
      unfold resume in
      reads h l (answered r) s.hub.store (answered r) s.hub.store g (λ id. refl) tt (λ id m. m)

  -- One task of a list has taken a step. What every other task knows is still true.
  record Woken (tasks : List Task) (s : State) (tasks' : List Task) (s' : State) : Type 0 where
    good : l.IsGood s'
    changes : Changes (l.view s) (l.view s')
    know : All (Knows (l.view s')) tasks'
    apart : Apart tasks'
    others :
        (w : Task)
        → All (Distinct w) tasks
        → Knows (l.view s) w
        → Knows (l.view s') w × All (Distinct w) tasks'

  stays :
      (w t : Task) (s s' : State) (t' : Task)
      → Steps h l t s t' s'
      → Distinct w t
      → Knows (l.view s) w
      → Knows (l.view s') w
  stays w t s s' t' e d k =
      Knows-stable (l.view s) (l.view s') w e.changes (λ id m. e.leaves id (d id m)) k

  Distinct-step :
      (w t : Task) (s s' : State) (t' : Task) → Steps h l t s t' s' → Distinct w t → Distinct w t'
  Distinct-step w t s s' t' e d id m m' = d id m (e.same_mover id m')

  Distinct-sym : (t u : Task) → Distinct t u → Distinct u t
  Distinct-sym t u d id m m' = d id m' m

  first-Woken :
      (t : Task) (tasks : List Task) (s : State) (t' : Task) (s' : State)
      → Steps h l t s t' s'
      → All (Knows (l.view s)) tasks
      → All (Distinct t) tasks
      → Apart tasks
      → Woken (t ∷ tasks) s (t' ∷ tasks) s'
  first-Woken t tasks s t' s' e k d a = record {
    good = e.good;
    changes = e.changes;
    know = (e.knows, kept tasks k d);
    apart = (
      All-map _ _ (λ u du. Distinct-sym u t' (Distinct-step u t s s' t' e (Distinct-sym t u du)))
          tasks d,
      a,
    );
    others = λ w dw kw. (stays w t s s' t' e dw.0 kw, (Distinct-step w t s s' t' e dw.0, dw.1));
  }
    where
      kept :
          (us : List Task)
          → All (Knows (l.view s)) us
          → All (Distinct t) us
          → All (Knows (l.view s')) us
      kept [] k d = tt
      kept (u ∷ us) k d = (stays u t s s' t' e (Distinct-sym t u d.0) k.0, kept us k.1 d.1)

  later-Woken :
      (t : Task) (tasks : List Task) (s : State) (tasks' : List Task) (s' : State)
      → Woken tasks s tasks' s'
      → Knows (l.view s) t
      → All (Distinct t) tasks
      → Woken (t ∷ tasks) s (t ∷ tasks') s'
  later-Woken t tasks s tasks' s' e k d =
      let (k', d') = e.others t d k in
      record {
        good = e.good;
        changes = e.changes;
        know = (k', e.know);
        apart = (d', e.apart);
        others = λ w dw kw. let (kw', dw') = e.others w dw.1 kw in (kw', (dw.0, dw'));
      }

  wake-Woken :
      (i : ℕ) (tasks : List Task) (s : DesignerState State)
      → l.IsGood s.hub.store
      → All (Knows (l.view s.hub.store)) tasks
      → Apart tasks
      → Woken tasks s.hub.store (wake h i tasks s).0 (wake h i tasks s).1.hub.store
  unfolding wake
  wake-Woken i [] s g k a = record {
    good = g;
    changes = λ id. unchanged refl;
    know = tt;
    apart = tt;
    others = λ w d kw. (kw, tt);
  }
  wake-Woken zero (t ∷ tasks) s g k a =
      let (t', s') = resume h t s in
      first-Woken t tasks s.hub.store t' s'.hub.store (resume-Steps t s k.0 g) k.1 a.0 a.1
  wake-Woken (suc i) (t ∷ tasks) s g k a =
      let (tasks', s') = wake h i tasks s in
      later-Woken t tasks s.hub.store tasks' s'.hub.store (wake-Woken i tasks s g k.1 a.1) k.0 a.0

  -- A loop in which every task knows what is so, and no two tasks change or approve one offer.
  pub record IsOrderly (m : Loop h) : Type 0 where
    pub good : l.IsGood m.state.hub.store
    pub know : All (Knows (l.view m.state.hub.store)) m.tasks
    pub apart : Apart m.tasks

  -- A request comes at the start of its handler, and not while a change or an approval of the same offer
  -- is under way if it is one itself.
  abbrev pub IsFree : Event → Loop h → Type 0
  IsFree (arrive t) m = Starts t × All (Distinct t) m.tasks
  IsFree (resume_at i) m = Unit {0}

  abbrev pub AllFree : List Event → Loop h → Type 0
  AllFree [] m = Unit {0}
  AllFree (e ∷ events) m = IsFree e m × AllFree events (step h e m)

  step-IsOrderly :
      (e : Event) (m : Loop h)
      → IsFree e m
      → IsOrderly m
      → IsOrderly (step h e m)
        × Changes (l.view m.state.hub.store) (l.view (step h e m).state.hub.store)
  unfolding step
  step-IsOrderly (arrive t) m f k = (
    record {
      good = k.good;
      know = (Starts-Knows (l.view m.state.hub.store) t f.0, k.know);
      apart = (f.1, k.apart);
    },
    λ id. unchanged refl,
  )
  step-IsOrderly (resume_at i) m f k =
      let w = wake-Woken i m.tasks m.state k.good k.know k.apart in
      (record { good = w.good; know = w.know; apart = w.apart }, w.changes)

  -- Whatever the tasks and the order of their steps, whatever fails, and however many saves, sweeps and
  -- reads overlap with the rest: an offer that was in the store is still there, and is the same or has a
  -- status further on, if at no time two tasks are under way that change the status of one offer or
  -- approve it; and at the end the loop is orderly again. Bodies have passed validation, and Claude
  -- writes no active offer for a marketer.
  pub overlap_progress :
      (events : List Event) (m : Loop h) (id : String)
      → AllFree events m
      → IsOrderly m
      → IsOrderly (run h events m)
        × Progress (l.view m.state.hub.store id) (l.view (run h events m).state.hub.store id)
  unfolding run
  overlap_progress [] m id f k = (k, λ o e. (o, e, inl refl))
  overlap_progress (e ∷ events) m id f k =
      let (k', c) = step-IsOrderly e m f.0 k in
      let (k'', p) = overlap_progress events (step h e m) id f.1 k' in
      (
        k'',
        Progress-trans (l.view m.state.hub.store id) (l.view (step h e m).state.hub.store id)
            (l.view (run h events (step h e m)).state.hub.store id)
            (Change-Progress (l.view m.state.hub.store id) (l.view (step h e m).state.hub.store id)
              (c id))
            p,
      )
