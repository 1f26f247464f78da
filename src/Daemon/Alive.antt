-- ===== src/Daemon/Alive.antt =====
-- cmd/tripflare/main.go: the process over everything that its goroutines do, step by step.
use tripflare.Dns.Safety.{handle_query-IsSafe}
use tripflare.Http.Serving.{handlers-IsServed}
use tripflare.Base.{
  ◌==◌, GoString, Outcome, ret, then_do, Returns, then_do_of_ret, Result-cases, ℕ, ◌<◌, ◌≡◌, refl,
  inl, inr, false, List, [], ◌∷◌, arith,
}
use tripflare.Store.Monad.{Db}
use tripflare.Store.Rows.{Service}
use tripflare.Store.Integrity.{HasSlugs}
use tripflare.Registry.Types.{Svc}
use tripflare.Registry.Invariant.{IsValid, IsSafe}
use tripflare.Registry.Invariant.Methods.{take_event-IsValid, unsubscribe-IsSafe}
use tripflare.Registry.Invariant.Sweep.{cleanup-IsSafe}
use tripflare.Registry.Invariant.Steps.{collects, finishes, Reach, here, next, Reach-IsValid}
use tripflare.Registry.Persistence.{
  FlushSnapshot, finish_snapshot, persist, flush_snapshots, flush_to,
}
use tripflare.Ratelimit.Floats.{Floats}
use tripflare.Ratelimit.Buckets.{Svc as Limiter}
use tripflare.Dns.Messages.{QType}
use tripflare.Dns.Answers.{Zone}
use tripflare.Http.Types.{Server}
use tripflare.Daemon.{new_ticker, State}
use tripflare.Daemon.Process.{
  Flusher, at_ticker, at_slug, at_events, at_end, at_cleanup, at_delete, at_gc, Act, flushes, https,
  http, queries, receives, leaves, flush_step, act, acts, live,
}

module _ {S : Type 0} (st : Service S) where
  flush_snapshots-Reach :
      (snaps : List FlushSnapshot) (s₀ s : Svc) (db : S)
      → Reach s₀ s
      → Reach s₀ (flush_snapshots st snaps s db).1
  unfolding flush_snapshots
  flush_snapshots-Reach [] s₀ s db r = r
  flush_snapshots-Reach (snap ∷ snaps) s₀ s db r = elim (Result-cases (persist st snap db).0) [
    | inl (m, e) ↦ rw (e, flush_snapshots) r
    | inr (done, e) ↦
        rw (e, flush_snapshots)
          (flush_snapshots-Reach snaps s₀ (finish_snapshot snap s) (persist st snap db).1
            (next r (finishes snap)))
  ]

  -- a flush is one run of the registry's locked sections
  pub flush_to-Reach : (s : Svc) (db : S) → Reach s (flush_to st s db).1
  unfolding flush_to
  flush_to-Reach s db = flush_snapshots-Reach _ s _ db (next here collects)

module _ (f : Floats) where
  -- the registry keeps its invariant, and the store has the slug of every event
  pub record IsHealthy (w : State f) : Type 0 where
    pub registry : IsValid w.registry
    pub store : HasSlugs w.db

  -- it returned, and the registry keeps its invariant
  pub record IsAlive {A : Type 0} (r : Outcome A × State f) : Type 0 where
    pub returns : Returns r.0
    pub registry : IsValid r.1.registry

  then_do-IsAlive :
      {A B : Type 0} (r : Outcome A × State f) (k : A → State f → Outcome B × State f)
      → IsAlive r
      → ((a : A) (w : State f) → IsValid w.registry → IsAlive (k a w))
      → IsAlive (then_do r k)
  then_do-IsAlive r k alive kept =
      let (a, e) = alive.returns in rw (then_do_of_ret r a k e) (kept a r.1 alive.registry)

  -- what is done to the registry alone
  within-IsAlive :
      {A B : Type 0} (r : Outcome A × Svc) (w : State f) (b : B)
      → IsSafe r
      → IsAlive (then_do (r.0, record w { registry = r.1 }) (λ _ w'. (ret b, w')))
  within-IsAlive r w b safe =
      then_do-IsAlive _ _ (record { returns = safe.returns; registry = safe.valid })
        (λ a w' v. record { returns = (b, refl); registry = v })

  flush_step-IsAlive :
      (now : ℕ) (g : Flusher) (w : State f) → IsValid w.registry → IsAlive (flush_step f now g w)
  unfolding flush_step
  flush_step-IsAlive now at_ticker w v = record {
    returns = (_, refl);
    registry = Reach-IsValid (next here collects) v;
  }
  flush_step-IsAlive now (at_slug snap snaps) w v = record { returns = (_, refl); registry = v }
  flush_step-IsAlive now (at_events snap snaps) w v = record { returns = (_, refl); registry = v }
  flush_step-IsAlive now (at_end snap snaps) w v = record {
    returns = (_, refl);
    registry = Reach-IsValid (next here (finishes snap)) v;
  }
  flush_step-IsAlive now at_cleanup w v =
      within-IsAlive _ w at_delete (cleanup-IsSafe now w.registry v)
  flush_step-IsAlive now at_delete w v = record { returns = (_, refl); registry = v }
  flush_step-IsAlive now at_gc w v = record { returns = (_, refl); registry = v }

  module _ (type_to_string : QType → GoString) (zone : Zone) (server : Server Db (Limiter f)) where
    act-IsAlive :
        (a : Act) (g : Flusher) (w : State f)
        → IsValid w.registry
        → IsAlive (act f type_to_string zone server a g w)
    unfolding act
    act-IsAlive (flushes now) g w v = flush_step-IsAlive now g w v
    act-IsAlive (https draws now r) g w v =
        let served = (handlers-IsServed server draws now r w v).0 in
        then_do-IsAlive _ _ (record { returns = served.answers; registry = served.valid })
          (λ a w' v'. record { returns = (g, refl); registry = v' })
    act-IsAlive (http now r) g w v =
        let served = (handlers-IsServed server [] now r w v).1 in
        then_do-IsAlive _ _ (record { returns = served.answers; registry = served.valid })
          (λ a w' v'. record { returns = (g, refl); registry = v' })
    act-IsAlive (queries challenges remote_addr r now) g w v =
        within-IsAlive _ w g
          (handle_query-IsSafe type_to_string zone challenges remote_addr r now w.registry v)
    act-IsAlive (receives sub) g w v = record {
      returns = (g, refl);
      registry = take_event-IsValid sub w.registry v;
    }
    act-IsAlive (leaves slug sub) g w v =
        within-IsAlive _ w g (unsubscribe-IsSafe slug sub w.registry v)

    acts-IsAlive :
        (list : List Act) (g : Flusher) (w : State f)
        → IsValid w.registry
        → IsAlive (acts f type_to_string zone server list g w)
    unfolding acts
    acts-IsAlive [] g w v = record { returns = (tt, refl); registry = v }
    acts-IsAlive (a ∷ more) g w v =
        then_do-IsAlive _ _ (act-IsAlive a g w v) (λ g' w' v'. acts-IsAlive more g' w' v')

    pub live-IsAlive :
        (interval : ℕ) (list : List Act) (w : State f)
        → 0 < interval
        → IsValid w.registry
        → IsAlive (live f type_to_string zone server interval list w)
    unfolding live new_ticker
    live-IsAlive interval list w positive v =
        let never : (interval == 0) ≡ false = ground arith in
        rw never (acts-IsAlive list at_ticker w v)
