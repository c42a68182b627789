-- ===== src/Ingest/Loop.antt =====
-- What every item keeps, the whole request keeps.
use thermite_rs.Prelude.{Bytes, List, Option, Result, [], err, none, ok, some, ℕ, ◌+◌, ◌∷◌}
use thermite_rs.Envelope.Parser.{Envelope, Item, ParseError, parse}
use thermite_rs.Ingest.Requests.{
  AppError, Config, Libraries, OutcomeCount, Project, Request, ThermiteState, with_outcomes,
}
use thermite_rs.Ingest.Endpoints.{
  Flow, Progress, dies, fails, finish_request, first_progress, goes_on, handle_item, handle_items,
  serve_body, serve_envelope, serve_parsed,
}

module _ (P : ThermiteState → Type 0) (lib : Libraries) (config : Config) (r : Request)
    (project : Project)
    (item_keeps : (n : ℕ) (i : Item) (p : Progress)
      → P p.state
      → P (handle_item lib config r project n i p).0.state)
    (outcomes_keep : (rows : List OutcomeCount) (s : ThermiteState)
      → P s
      → P (with_outcomes rows s)) where
  after_item :
      (p : Progress) (f : Flow) (rest : Progress × Flow)
      → P p.state
      → P rest.0.state
      → P
          (elim f as (λ g. Progress × Flow) [
            | goes_on ↦ rest
            | fails e ↦ (p, fails e)
            | dies ↦ (p, dies)
          ]).0.state
  after_item p goes_on rest h k = k
  after_item p (fails e) rest h k = h
  after_item p dies rest h k = h

  handle_items-keeps :
      (n : ℕ) (is : List Item) (p : Progress)
      → P p.state
      → P (handle_items lib config r project n is p).0.state
  unfolding handle_items
  handle_items-keeps n [] p h = h
  handle_items-keeps n (i ∷ is) p h =
      let done = handle_item lib config r project n i p in
      let kept = item_keeps n i p h in
      after_item done.0 done.1 (handle_items lib config r project (n + 1) is done.0) kept
        (handle_items-keeps (n + 1) is done.0 kept)

  finish_request-keeps : (d : Progress × Flow) → P d.0.state → P (finish_request lib r project d).0
  unfolding finish_request
  finish_request-keeps (p, goes_on) h = outcomes_keep _ p.state h
  finish_request-keeps (p, fails e) h = h
  finish_request-keeps (p, dies) h = h

  serve_parsed-keeps :
      (parsed : Option (Result ParseError Envelope)) (s : ThermiteState)
      → P s
      → P (serve_parsed lib config r project parsed s).0
  unfolding serve_parsed serve_envelope
  serve_parsed-keeps none s h = h
  serve_parsed-keeps (some (err e)) s h = h
  serve_parsed-keeps (some (ok e)) s h =
      finish_request-keeps (handle_items lib config r project 1 e.items (first_progress lib e s))
        (handle_items-keeps 1 e.items (first_progress lib e s) h)

  pub serve_body-keeps :
      (body : Result AppError Bytes) (s : ThermiteState)
      → P s
      → P (serve_body lib config r project body s).0
  unfolding serve_body
  serve_body-keeps (err e) s h = h
  serve_body-keeps (ok body) s h = serve_parsed-keeps (parse lib.codec body) s h
