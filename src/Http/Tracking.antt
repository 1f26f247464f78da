-- ===== src/Http/Tracking.antt =====
-- What internal/httpserver answers to requests for trackers, and what they leave in the registry.
use mathlib.Core.Bool.{false≢true}
use tripflare.Base.{
  Bool-cases, GoString, Outcome, ret, Returns, ℕ, ◌≡◌, refl, sym, ◌∙◌, inl, inr, Bool, true, false,
  ◌&&◌, ◌∷◌, ◌++◌,
}
use tripflare.Registry.Types.{Svc}
use tripflare.Registry.Methods.{slug_exists, http_type, http_payload, record_http}
use tripflare.Registry.Invariant.{IsValid}
use tripflare.Registry.Invariant.Methods.{record_event-IsSafe}
use tripflare.Registry.Recording.{IsRecorded, record_event_lem}
use tripflare.Http.Types.{Request, Server, World}
use tripflare.Http.Routes.{client_ip, hit, page, record_hit, handle_tripflare}

-- the handler returned, and the registry keeps its invariant
pub record IsServed {S L A : Type 0} (r : Outcome A × World S L) : Type 0 where
  pub answers : Returns r.0
  pub valid : IsValid r.1.registry

module _ {S L : Type 0} (server : Server S L) where
  module _ (now : ℕ) (r : Request) (slug : GoString) (w : World S L) where
    -- whether the limiter lets the hit through
    abbrev pub lets_through : Bool
    lets_through = (server.allow (client_ip r ++ (b':' ∷ slug)) now w.limits).0

    -- What a hit on a tracker leaves in the registry: it is recorded, or nothing changes.
    pub data Hits (after : Svc) : Type 0 where
      recorded :
          slug_exists slug w.registry ≡ true
          → lets_through ≡ true
          → IsRecorded slug http_type (client_ip r) (http_payload (hit r)) now w.registry after
          → Hits after
      ignored :
          slug_exists slug w.registry && lets_through ≡ false → after ≡ w.registry → Hits after

    -- Where the registry keeps its invariant, the answer to a request for a tracker is the page of
    -- its path whether or not the slug exists and the limiter lets it through; the request is
    -- recorded as the slug's last event exactly where both hold, and otherwise the registry stays
    -- as it is. The invariant holds again.
    pub handle_tripflare_lem :
        IsValid w.registry
        → ((handle_tripflare server now r slug w).0 ≡ ret (page r))
          × IsValid (handle_tripflare server now r slug w).1.registry
          × Hits (handle_tripflare server now r slug w).1.registry
    unfolding handle_tripflare record_hit record_http
    handle_tripflare_lem v = elim (Bool-cases (slug_exists slug w.registry)) [
      | inr missing ↦ rw missing (refl, v, ignored (rw missing refl) refl)
      | inl exists ↦ elim (Bool-cases lets_through) [
        | inr limited ↦ rw (exists, limited) (refl, v, ignored (rw (exists, limited) refl) refl)
        | inl free ↦
            let safe =
              record_event-IsSafe slug http_type (client_ip r) (http_payload (hit r)) now w.registry
                v in
            elim (record_event_lem slug http_type (client_ip r) (http_payload (hit r)) now
              w.registry v) [
                | inl (_, returns, done) ↦
                    rw (exists, free, returns) (refl, safe.valid, recorded exists free done)
                | inr (missing, _) ↦ absurd (false≢true (sym missing ∙ exists))
              ]
      ]
    ]
