-- ===== src/Service/Posting.antt =====
-- src/main.rs: what a sequence of requests over HTTP does to the store.
use mathlib.Core.Path.{subst}
use onym_recovery_trustee.Prelude.{
  Bytes, List, Option, [], ap, arith, if◌then◌else◌, inl, inr, ltb, none, pos, refl, some, sym, ℕ,
  ℤ, ◌^◌, ◌∙◌, ◌∷◌, ◌≡◌, ◌⊎◌,
}
use onym_recovery_trustee.Code.{some-injective}
use onym_recovery_trustee.External.{External}
use onym_recovery_trustee.Service.Answering.{
  Answers, NoTime, endpoint-Answers, ran, ran_into, rejected, unable,
}
use onym_recovery_trustee.Service.Endpoint.{App, Lock, Response, endpoint, free, poisoned}
use onym_recovery_trustee.Store.{Db}
use onym_recovery_trustee.Store.Runs.{Run, after, request, stay}
use onym_recovery_trustee.Store.Serving.{Draws}
use onym_recovery_trustee.Trustee.{Trustee}

-- A request as it reaches the endpoint.
pub record Post : Type 0 where
  pub body : Option Bytes
  pub draws : Draws
  pub elapsed : Option ℕ
  pub lock : Lock

-- The bytes and the time of a post that the store has to answer: one with a body, the lock free and
-- the clock at an i64 of seconds since the epoch.
abbrev pub admitted : Option Bytes → Option ℕ → Lock → Option (Bytes × ℤ)
admitted (some body) (some secs) free = if ltb secs (2 ^ 63) then some (body, pos secs) else none
admitted _ _ _ = none

module _ (x : External) where
  -- The app after some requests, the last of them first.
  unfoldable pub serve_all : App → List Post → App
  serve_all app [] = app
  serve_all app (post ∷ earlier) =
      (endpoint x (serve_all app earlier) post.body post.draws post.elapsed post.lock).1

  -- What a post does to a database.
  abbrev pub replayed : Trustee → Draws → Option (Bytes × ℤ) → Db → Db
  replayed t draws none db = db
  replayed t draws (some (body, now)) db = after x t body draws now db

  -- The database after the posts that the store has to answer, each handled once and in their order.
  unfoldable pub replay : Trustee → Db → List Post → Db
  replay t db [] = db
  replay t db (post ∷ earlier) =
      replayed t post.draws (admitted post.body post.elapsed post.lock) (replay t db earlier)

  admitted-unable :
      (body : Option Bytes) (elapsed : Option ℕ) (lock : Lock)
      → (lock ≡ poisoned) ⊎ NoTime elapsed
      → admitted body elapsed lock ≡ none
  admitted-unable none elapsed lock h = refl
  admitted-unable (some body) none lock h = refl
  admitted-unable (some body) (some secs) poisoned h = refl
  admitted-unable (some body) (some secs) free (inl locked) = cc
  admitted-unable (some body) (some secs) free (inr (inl no_clock)) = cc
  admitted-unable (some body) (some secs) free (inr (inr (late, e, beyond))) =
      ground (arith, some-injective e, beyond)

  -- A response comes of what the post does to the database.
  Answers-replayed :
      (app : App) (body : Option Bytes) (draws : Draws) (elapsed : Option ℕ) (lock : Lock)
      (response : Response) (db : Db)
      → Answers x app body draws elapsed lock response db
      → db ≡ replayed app.trustee draws (admitted body elapsed lock) app.store
  Answers-replayed app body draws elapsed lock response db (ran bytes answer secs b l e s h _ _) =
      rw (b, l, e) (ground (arith, s, h))
  Answers-replayed app body draws elapsed lock response db
        (ran_into bytes code secs n b l e s h _ _) =
      rw (b, l, e) (ground (arith, s, h))
  Answers-replayed app body draws elapsed lock response db (rejected b e _) = rw b e
  Answers-replayed app body draws elapsed lock response db (unable h e _) =
      rw (admitted-unable body elapsed lock h) e

  -- One post.
  Post-replayed :
      (app : App) (post : Post)
      → let app' = (endpoint x app post.body post.draws post.elapsed post.lock).1 in
        (app'.store
          ≡ replayed app.trustee post.draws (admitted post.body post.elapsed post.lock) app.store)
        × (app'.trustee ≡ app.trustee)
        × (app'.service ≡ app.service)
  Post-replayed app post =
      let (answers, _, same) = endpoint-Answers x app post.body post.draws post.elapsed post.lock in
      (
        Answers-replayed app post.body post.draws post.elapsed post.lock _ _ answers,
        ap (λ (a : App). a.trustee) same,
        ap (λ (a : App). a.service) same,
      )

  replayed-Run :
      (t : Trustee) (draws : Draws) (post : Option (Bytes × ℤ)) (db db' : Db)
      → Run x t db db'
      → Run x t db (replayed t draws post db')
  replayed-Run t draws none db db' run = run
  replayed-Run t draws (some (body, now)) db db' run = request db db' body draws now run

  replay-Run : (t : Trustee) (db : Db) (posts : List Post) → Run x t db (replay t db posts)
  unfolding replay
  replay-Run t db [] = stay db
  replay-Run t db (post ∷ earlier) =
      replayed-Run t post.draws (admitted post.body post.elapsed post.lock) db (replay t db earlier)
        (replay-Run t db earlier)

  -- After any sequence of requests over HTTP, the store holds what its handler makes of exactly those
  -- requests that have a body, find the lock free and come at an i64 of seconds since the epoch: of
  -- each once, in their order, with its own bytes and draws and at its own time; this is a run of the
  -- store. The trustee and the service are the same.
  pub serve_all-replay :
      (app : App) (posts : List Post)
      → ((serve_all app posts).store ≡ replay app.trustee app.store posts)
        × Run x app.trustee app.store (serve_all app posts).store
        × ((serve_all app posts).trustee ≡ app.trustee)
        × ((serve_all app posts).service ≡ app.service)
  unfolding serve_all replay
  serve_all-replay app [] = (refl, stay app.store, refl, refl)
  serve_all-replay app (post ∷ earlier) =
      let app' = serve_all app earlier in
      let (stored, _, same_trustee, same_service) = serve_all-replay app earlier in
      let (last, kept_trustee, kept_service) = Post-replayed app' post in
      let whole : (serve_all app (post ∷ earlier)).store
          ≡ replay app.trustee app.store (post ∷ earlier) =
        last
        ∙ ap (λ t. replayed t post.draws (admitted post.body post.elapsed post.lock) app'.store)
            same_trustee
        ∙ ap (replayed app.trustee post.draws (admitted post.body post.elapsed post.lock)) stored in
      (
        whole,
        subst (Run x app.trustee app.store) (sym whole)
            (replay-Run app.trustee app.store (post ∷ earlier)),
        kept_trustee ∙ same_trustee,
        kept_service ∙ same_service,
      )
