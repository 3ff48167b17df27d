-- ===== src/Preview/History.antt =====
-- What holds of the coordinator after any requests and passes of the sweeper.
use atenea_remote_worker_spe.Prelude.{
  ℕ, String, ◌≡◌, some, List, [], ◌∷◌, Result, ok, err, Dict, lookup,
}
use atenea_remote_worker_spe.Prelude.Json.{Fields}
use atenea_remote_worker_spe.Prelude.Triples.{Post}
use atenea_remote_worker_spe.Preview.Record.{Failure, Settings, Forwarder, Coordinator, Host}
use atenea_remote_worker_spe.Preview.Lifecycle.{activate, inspect, renew, stop, delete_synthetic}
use atenea_remote_worker_spe.Preview.Sweep.{sweep}
use atenea_remote_worker_spe.Preview.Soundness.{IsSound}
use atenea_remote_worker_spe.Preview.Preservation.{Keeps}
use atenea_remote_worker_spe.Preview.Invariant.{
  activate-IsSound, inspect-IsSound, renew-IsSound, stop-IsSound, delete-IsSound,
}
use atenea_remote_worker_spe.Preview.Expiry.{IsLive, sweep-IsSound, sweep-IsLive}

pub data Call : Type 0 where
  activates : String → Fields → Call
  inspects : String → Dict (List String) → Call
  renews : String → Fields → Call
  stops : String → Fields → Call
  deletes : String → Fields → Call
  sweeps : Call

-- A call, with the machine as it finds it and the instant.
pub record Event : Type 0 where
  pub host : Host
  pub now : ℕ
  pub call : Call

abbrev pub empty : Coordinator
empty = record { records = []; forwarders = [] }

module _ (s : Settings) where
  -- The coordinator after a call, whether it returned or raised.
  unfoldable pub perform : Host → ℕ → Call → Coordinator → Coordinator
  perform h now (activates id q) c = (activate h s now id q c).1
  perform h now (inspects id q) c = (inspect h s now id q c).1
  perform h now (renews id q) c = (renew h s now id q c).1
  perform h now (stops id q) c = (stop h s now id q c).1
  perform h now (deletes id q) c = (delete_synthetic h s now id q c).1
  perform h now sweeps c = (sweep now c).1

  unfoldable pub serve_all : List Event → Coordinator → Coordinator
  unfolding perform
  serve_all [] c = c
  serve_all (e ∷ es) c = serve_all es (perform e.host e.now e.call c)

either-IsSound :
    {A : Type 0} (x : Result Failure A × Coordinator) → Post (λ _. IsSound) IsSound x → IsSound x.1
either-IsSound (ok a, c) h = h
either-IsSound (err e, c) h = h

kept :
    {A : Type 0} {m : Coordinator → Result Failure A × Coordinator} (c : Coordinator)
    → Keeps m
    → IsSound c
    → IsSound (m c).1
kept {m = m} c k s = either-IsSound (m c) (k.holds c s)

pub perform-IsSound :
    (s : Settings) (h : Host) (now : ℕ) (call : Call) (c : Coordinator)
    → IsSound c
    → IsSound (perform s h now call c)
unfolding perform
perform-IsSound s h now (activates id q) c i = kept c (activate-IsSound h s now id q) i
perform-IsSound s h now (inspects id q) c i = kept c (inspect-IsSound h s now id q) i
perform-IsSound s h now (renews id q) c i = kept c (renew-IsSound h s now id q) i
perform-IsSound s h now (stops id q) c i = kept c (stop-IsSound h s now id q) i
perform-IsSound s h now (deletes id q) c i = kept c (delete-IsSound h s now id q) i
perform-IsSound s h now sweeps c i = sweep-IsSound now c i

empty-IsSound : IsSound empty
unfolding lookup
empty-IsSound = record {
  named = λ id p e. cc;
  leased = λ id p e. cc;
  served = λ id f e. cc;
  apart = λ i j f g e e' p. cc;
}

serve_all-from :
    (s : Settings) (es : List Event) (c : Coordinator) → IsSound c → IsSound (serve_all s es c)
unfolding serve_all
serve_all-from s [] c i = i
serve_all-from s (e ∷ es) c i =
    serve_all-from s es (perform s e.host e.now e.call c)
      (perform-IsSound s e.host e.now e.call c i)

-- After any requests and passes of the sweeper, at any instants and with any answers of the
-- machine: each record lies in its own directory, with a lease that ends with its hard lifetime at
-- the latest and a hard lifetime of eight hours from its creation; each forwarder serves a ready
-- preview on that preview's ports; and no two forwarders share a port.
pub serve_all-IsSound : (s : Settings) (es : List Event) → IsSound (serve_all s es empty)
serve_all-IsSound s es = serve_all-from s es empty empty-IsSound

-- Whatever was requested before, a pass of the sweeper that returns leaves no forwarder but those
-- of ready previews whose lease and whose eight hours from their creation have not ended.
pub serve_all-IsLive :
    (s : Settings) (es : List Event) (now : ℕ) (id : String) (f : Forwarder)
    → (sweep now (serve_all s es empty)).0 ≡ ok tt
    → lookup id (sweep now (serve_all s es empty)).1.forwarders ≡ some f
    → IsLive now (sweep now (serve_all s es empty)).1 id f
serve_all-IsLive s es now id f e found =
    sweep-IsLive now (serve_all s es empty) (serve_all-IsSound s es) id f e found
