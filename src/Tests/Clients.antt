-- ===== src/Tests/Clients.antt =====
-- The credentials, decompression and the transport, at concrete inputs.
use thermite_rs.Prelude.{
  List, [], arith, codes, err, false, none, ok, refl, some, true, ◌++◌, ◌∷◌, ◌≡◌,
}
use thermite_rs.Strings.Decimal.{to_string}
use thermite_rs.Credentials.Dsn.{dsn, parse_dsn}
use thermite_rs.Credentials.RoundTrip.{IsPublicKey, base_of, parse_dsn-dsn}
use thermite_rs.Credentials.Header.{sentry_key_from_auth_header}
use thermite_rs.Compression.{Decoders}
use thermite_rs.Sdk.Transport.{
  Run, Task, Transport, barrier, flush, new, send, send_envelope, sends, taken,
}
use thermite_rs.Sdk.Fifo.{as_fifo, fifo_after, transport_refines_fifo}
use thermite_rs.Sdk.Barrier.{flush_means_posted, holds, worker, worker_drains}

abc-IsPublicKey : IsPublicKey (codes "abc123")
abc-IsPublicKey = record { not_empty = refl; no_at = refl; no_colon = refl }

parse_dsn-dsn_example :
    parse_dsn (dsn (base_of false (codes "localhost:9000")) (codes "abc123") 42)
    ≡ ok (record {
      public_key = codes "abc123";
      project_id = 42;
      ingest_url =
          base_of false (codes "localhost:9000")
          ++ (codes "/api/"
              ++ (to_string 42 ++ (codes "/envelope/?sentry_key=" ++ codes "abc123")));
      raw = dsn (base_of false (codes "localhost:9000")) (codes "abc123") 42;
    })
parse_dsn-dsn_example =
    parse_dsn-dsn false (codes "localhost:9000") (codes "abc123") 42 refl abc-IsPublicKey
      (omega arith) (omega arith)

key_read : sentry_key_from_auth_header (codes "Sentry a=b, sentry_key=pub") ≡ some (codes "pub")
unfolding sentry_key_from_auth_header
key_read = refl

-- Readers that repeat the body, and one that fails behind it.
abbrev decoders : Decoders
decoders = record {
  gzip = λ body. record { bytes = body ++ body; failure = none };
  deflate = λ body. record { bytes = body; failure = some (codes "corrupt") };
  br = λ body. record { bytes = body; failure = none };
  zstd = λ body. err (codes "no frame");
}

abbrev one_sent : Transport
one_sent = record {
  connected = true;
  queue = send_envelope (codes "e1") ∷ [];
  current = none;
  worked = [];
}

send_queues : send (codes "e1") (new true) ≡ one_sent
unfolding send new
send_queues = refl

transport_refines_fifo_example :
    as_fifo (send (codes "e2") one_sent) ≡ fifo_after (sends (codes "e2") one_sent)
transport_refines_fifo_example = transport_refines_fifo (sends (codes "e2") one_sent)

flush_takes : (flush 1 one_sent).1 ≡ true
unfolding flush
flush_takes = refl

abbrev flushed : Transport
flushed = record {
  connected = true;
  queue = send_envelope (codes "e1") ∷ barrier 1 ∷ [];
  current = none;
  worked = [];
}

flush_queues : (flush 1 one_sent).0 ≡ flushed
unfolding flush
flush_queues = refl

drained : Run (flush 1 one_sent).0 (worker 5 (flush 1 one_sent).0)
unfolding flush
drained = (worker_drains flushed 5 refl (omega arith)).0

barrier_worked : holds 1 (worker 5 (flush 1 one_sent).0).worked ≡ true
unfolding flush worker
barrier_worked = refl

flush_means_posted_example :
    (more : List Task) × ((worker 5 (flush 1 one_sent).0).worked
      ≡ taken one_sent ++ (barrier 1 ∷ more))
flush_means_posted_example =
    flush_means_posted 1 one_sent (worker 5 (flush 1 one_sent).0) refl flush_takes drained
      barrier_worked

worker_drains_example :
    Run flushed (worker 5 flushed)
    × ((worker 5 flushed).worked ≡ taken flushed)
    × ((worker 5 flushed).queue ≡ [])
    × ((worker 5 flushed).current ≡ none)
worker_drains_example = worker_drains flushed 5 refl (omega arith)
