-- ===== src/Registry/Invariant/Steps.antt =====
-- Interleavings of the methods of internal/registry and of the steps of a flush, and the states that
-- the registry can reach.
use tripflare.Base.{
  ◌==◌, Bool-cases, GoString, Dict, Returns, Every, total, ℕ, ◌<◌, ◌≡◌, refl, inl, inr, Option,
  List, [], ◌∷◌, arith,
}
use tripflare.Json.{RawMessage}
use tripflare.Registry.Types.{SlugEntry, Svc}
use tripflare.Registry.Entry.{finish_flush}
use tripflare.Registry.Methods.{
  new, create_slug, delete_slug, clear_events, cleanup, record_event, subscribe, unsubscribe,
}
use tripflare.Registry.Persistence.{
  FlushSnapshot, collect, collect_dirty_snapshots, write_at, finish_snapshot,
}
use tripflare.Registry.Invariant.{subscribed, IsEntry, IsValid}
use tripflare.Registry.Invariant.Methods.{
  new-IsValid, create_slug-IsValid, clear_events-IsValid, delete_slug-IsSafe, record_event-IsSafe,
  subscribe-IsValid, unsubscribe-IsSafe,
}
use tripflare.Registry.Invariant.Sweep.{cleanup-IsSafe}

module _ (m : ℕ) where
  Every-collect : (d : Dict SlugEntry) → Every (IsEntry m) d → Every (IsEntry m) (collect d).1
  unfolding collect
  Every-collect [] a = tt
  Every-collect ((id, e) ∷ d) (p, a) = elim (Bool-cases e.dirty) [
    | inl dirty ↦ rw dirty (p, Every-collect d a)
    | inr clean ↦ rw clean (p, Every-collect d a)
  ]

  Every-write_at :
      (addr n : ℕ) (d : Dict SlugEntry)
      → Every (IsEntry m) d
      → Every (IsEntry m) (write_at addr (finish_flush n) d)
  unfolding write_at finish_flush
  Every-write_at addr n [] a = tt
  Every-write_at addr n ((id, e) ∷ d) (p, a) = elim (Bool-cases (e.addr == addr)) [
    | inl here ↦ rw here (p, Every-write_at addr n d a)
    | inr there ↦ rw there (p, Every-write_at addr n d a)
  ]

total-collect :
    (c : ℕ) (d : Dict SlugEntry) → total (subscribed c) (collect d).1 ≡ total (subscribed c) d
unfolding collect
total-collect c [] = refl
total-collect c ((id, e) ∷ d) = ground (arith, total-collect c d)

total-write_at :
    (c addr n : ℕ) (d : Dict SlugEntry)
    → total (subscribed c) (write_at addr (finish_flush n) d) ≡ total (subscribed c) d
unfolding write_at finish_flush
total-write_at c addr n [] = refl
total-write_at c addr n ((id, e) ∷ d) = ground (arith, total-write_at c addr n d)

collect-IsValid : (s : Svc) → IsValid s → IsValid (collect_dirty_snapshots s).1
unfolding collect_dirty_snapshots
collect-IsValid s v = record {
  positive = v.positive;
  entries = Every-collect s.max_events_per_slug s.slugs v.entries;
  unclosed = λ c. omega (arith, total-collect c s.slugs, v.unclosed c);
  fresh = λ c h. omega (arith, total-collect c s.slugs, v.fresh c h);
}

finish-IsValid : (snap : FlushSnapshot) (s : Svc) → IsValid s → IsValid (finish_snapshot snap s)
unfolding finish_snapshot
finish-IsValid snap s v =
    let (id, n) : ℕ × ℕ = (snap.entry, snap.snapshot_len) in
    record {
      positive = v.positive;
      entries = Every-write_at s.max_events_per_slug id n s.slugs v.entries;
      unclosed = λ c. omega (arith, total-write_at c id n s.slugs, v.unclosed c);
      fresh = λ c h. omega (arith, total-write_at c id n s.slugs, v.fresh c h);
    }

-- One method that takes the lock, or one of FlushTo's two locked sections. The subscriber that is
-- unsubscribed and the snapshot that is finished may be any, also of an entry that is gone.
pub data Step (s : Svc) : Svc → Type 0 where
  creates :
      (draws : List (Option (List ℕ))) (owner : GoString) (now : ℕ)
      → Step s (create_slug draws owner now s).1
  deletes : (slug : GoString) → Step s (delete_slug slug s).1
  records :
      (slug event_type source_ip : GoString) (payload : RawMessage) (now : ℕ)
      → Step s (record_event slug event_type source_ip payload now s).1
  clears : (slug : GoString) → Step s (clear_events slug s).1
  cleans : (now : ℕ) → Step s (cleanup now s).1
  subscribes : (slug : GoString) → Step s (subscribe slug s).1
  unsubscribes : (slug : GoString) (sub : ℕ) → Step s (unsubscribe slug sub s).1
  collects : Step s (collect_dirty_snapshots s).1
  finishes : (snap : FlushSnapshot) → Step s (finish_snapshot snap s)

pub data Reach (s : Svc) : Svc → Type 0 where
  here : Reach s s
  next : {t u : Svc} → Reach s t → Step t u → Reach s u

Step-IsValid : {s t : Svc} → Step s t → IsValid s → IsValid t
Step-IsValid {s} (creates draws owner now) v = create_slug-IsValid draws owner now s v
Step-IsValid {s} (deletes slug) v = (delete_slug-IsSafe slug s v).valid
Step-IsValid {s} (records slug ty ip payload now) v =
    (record_event-IsSafe slug ty ip payload now s v).valid
Step-IsValid {s} (clears slug) v = clear_events-IsValid slug s v
Step-IsValid {s} (cleans now) v = (cleanup-IsSafe now s v).valid
Step-IsValid {s} (subscribes slug) v = subscribe-IsValid slug s v
Step-IsValid {s} (unsubscribes slug sub) v = (unsubscribe-IsSafe slug sub s v).valid
Step-IsValid {s} collects v = collect-IsValid s v
Step-IsValid {s} (finishes snap) v = finish-IsValid snap s v

-- Every interleaving of the methods and of the locked sections of flushes, from a state that keeps
-- the invariant, ends in one that keeps it: each entry stands under its slug's id with no more
-- events than the limit, each subscriber's channel is open and in one list only.
pub Reach-IsValid : {s t : Svc} → Reach s t → IsValid s → IsValid t
Reach-IsValid here v = v
Reach-IsValid (next r step) v = Step-IsValid step (Reach-IsValid r v)

-- what the methods that can panic do in the state s: they return
pub record NeverPanics (s : Svc) : Type 0 where
  pub deleting : (slug : GoString) → Returns (delete_slug slug s).0
  pub recording :
      (slug event_type source_ip : GoString) (payload : RawMessage) (now : ℕ)
      → Returns (record_event slug event_type source_ip payload now s).0
  pub cleaning : (now : ℕ) → Returns (cleanup now s).0
  pub unsubscribing : (slug : GoString) (sub : ℕ) → Returns (unsubscribe slug sub s).0

-- From a new registry with a positive limit, into which nothing was loaded, after any interleaving
-- of methods and flushes, no call of DeleteSlug, RecordDNS, RecordHTTP, Cleanup or of a subscriber's unsub panics.
pub Reach-NeverPanics :
    (max_events ttl : ℕ) {t : Svc} → 0 < max_events → Reach (new max_events ttl) t → NeverPanics t
Reach-NeverPanics max_events ttl {t} pos r =
    let v = Reach-IsValid r (new-IsValid max_events ttl pos) in
    record {
      deleting = λ slug. (delete_slug-IsSafe slug t v).returns;
      recording =
          λ slug ty ip payload now. (record_event-IsSafe slug ty ip payload now t v).returns;
      cleaning = λ now. (cleanup-IsSafe now t v).returns;
      unsubscribing = λ slug sub. (unsubscribe-IsSafe slug sub t v).returns;
    }
