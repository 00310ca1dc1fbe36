-- ===== src/Broker/Persistence/Writer.antt =====
-- `bg_writer` of mqtt-broker/src/persistence.rs, on what its channel yields.
use atom_mqtt.Prelude.{
  ◌≡◌, refl, sym, ◌∙◌, Bool, true, false, List, [], ◌∷◌, ◌++◌, length, ltb, if◌then◌else◌,
  Bool-cases, inl, inr,
}
use atom_mqtt.Broker.State.{PersistEvent, shutdown}
use atom_mqtt.Broker.Sql.{Sql}
use atom_mqtt.Broker.Persistence.{Outcome, Tables, apply_event, execute_all, flush_all}

-- What `select!` comes to: the timeout, or the channel, which is closed or yields an event; with
-- what `try_recv` then takes off it.
pub data Wake : Type 0 where
  timed_out : Wake
  closed : List PersistEvent → Wake
  woken : PersistEvent → List PersistEvent → Wake

-- `PersistEvent::Shutdown => …`
unfoldable pub is_shutdown : PersistEvent → Bool
is_shutdown shutdown = true
is_shutdown _ = false

-- The events that are drained before an exit: up to a `Shutdown`.
unfoldable pub until_shutdown : List PersistEvent → List PersistEvent
until_shutdown [] = []
until_shutdown (event ∷ queue) =
    let rest = until_shutdown queue in if is_shutdown event then [] else event ∷ rest

-- A flush that succeeds.
pub record IsGood (o : Outcome) : Type 0 where
  pub sound : o.locked ≡ true
  pub begun : o.begins ≡ true
  pub done : (event : PersistEvent) → o.executes event ≡ true
  pub committed : o.commits ≡ true

-- `answers` is what the database answers to the flush of a batch.
module _ (S : Sql) (answers : List PersistEvent → Tables S → Outcome) where
  abbrev flush : List PersistEvent → Tables S → Tables S
  flush batch db = flush_all S (answers batch db) batch db

  -- The writer between two rounds: whether it has stopped, the batch, and the tables.
  pub record Writer : Type 0 where
    pub stopped : Bool
    pub batch : List PersistEvent
    pub db : Tables S

  -- `flush_all(&db, &batch); return;`
  unfoldable pub stop_after : List PersistEvent → Tables S → Writer
  stop_after batch db = record { stopped = true; batch = []; db = flush batch db }

  -- `if !batch.is_empty() { flush_all(&db, &batch); batch.clear(); }`
  unfoldable pub flush_batch : List PersistEvent → Tables S → Writer
  flush_batch [] db = record { stopped = false; batch = []; db = db }
  flush_batch (event ∷ batch) db = record {
    stopped = false;
    batch = [];
    db = flush (event ∷ batch) db;
  }

  -- The inner `while` loop, and the flush behind it.
  unfoldable pub collect : List PersistEvent → List PersistEvent → Tables S → Writer
  unfolding stop_after flush_batch
  collect [] batch db = flush_batch batch db
  collect (event ∷ queue) batch db =
      let added = batch ++ event ∷ [] in
      let flushed = collect queue [] (flush added db) in
      let kept = collect queue added db in
      if is_shutdown event
      then stop_after batch db
      else if ltb (length added) 50
      then kept
      else flushed

  -- One pass of the loop.
  unfoldable pub round : Wake → List PersistEvent → Tables S → Writer
  unfolding stop_after flush_batch collect until_shutdown
  round timed_out batch db = flush_batch batch db
  round (closed queue) batch db = stop_after (batch ++ until_shutdown queue) db
  round (woken event queue) batch db =
      if is_shutdown event
      then stop_after (batch ++ until_shutdown queue) db
      else collect queue (batch ++ event ∷ []) db

  -- The loop, over what the channel yields.
  unfoldable pub bg_writer : List Wake → Tables S → Tables S
  unfolding round
  bg_writer [] db = db
  bg_writer (wake ∷ wakes) db =
      let w = round wake [] db in
      let rest = bg_writer wakes w.db in if w.stopped then w.db else rest

  -- The events of one burst that count, and whether it ends the writer: behind a `Shutdown` at its
  -- head those up to another count, behind a later one none.
  abbrev pub arrived : Wake → List PersistEvent
  arrived timed_out = []
  arrived (closed queue) = until_shutdown queue
  arrived (woken event queue) =
      if is_shutdown event then until_shutdown queue else event ∷ until_shutdown queue

  abbrev pub has_shutdown : List PersistEvent → Bool
  has_shutdown [] = false
  has_shutdown (event ∷ queue) =
      let rest = has_shutdown queue in if is_shutdown event then true else rest

  abbrev pub ends : Wake → Bool
  ends timed_out = false
  ends (closed queue) = true
  ends (woken event queue) = if is_shutdown event then true else has_shutdown queue

  -- All events that reach the writer, in order.
  abbrev pub all_arrived : List Wake → List PersistEvent
  all_arrived [] = []
  all_arrived (wake ∷ wakes) =
      let rest = all_arrived wakes in if ends wake then arrived wake else arrived wake ++ rest

  -- The tables after events one after another.
  abbrev pub apply_all : List PersistEvent → Tables S → Tables S
  apply_all [] db = db
  apply_all (event ∷ events) db = apply_all events (apply_event S event db)

  module _ (good : (batch : List PersistEvent) (db : Tables S) → IsGood (answers batch db)) where
    execute_all-apply :
        (executes : PersistEvent → Bool) (done : (event : PersistEvent) → executes event ≡ true)
        (batch : List PersistEvent) (db : Tables S)
        → execute_all S executes batch db ≡ apply_all batch db
    unfolding execute_all
    execute_all-apply executes done [] db = refl
    execute_all-apply executes done (event ∷ batch) db =
        rw (done event) (execute_all-apply executes done batch (apply_event S event db))

    flush_all-apply :
        (batch : List PersistEvent) (db : Tables S) → flush batch db ≡ apply_all batch db
    unfolding flush_all
    flush_all-apply batch db =
        let g : IsGood (answers batch db) = good batch db in
        rw (g.sound, flush_all)
          (rw (g.begun)
            (rw (g.committed) (execute_all-apply (answers batch db).executes g.done batch db)))

    apply_all-append :
        (a b : List PersistEvent) (db : Tables S)
        → apply_all (a ++ b) db ≡ apply_all b (apply_all a db)
    apply_all-append [] b db = refl
    apply_all-append (event ∷ a) b db = apply_all-append a b (apply_event S event db)

    flush_batch-apply :
        (batch : List PersistEvent) (db : Tables S)
        → flush_batch batch db ≡ record { stopped = false; batch = []; db = apply_all batch db }
    unfolding flush_batch
    flush_batch-apply [] db = refl
    flush_batch-apply (event ∷ batch) db = rw (flush_all-apply (event ∷ batch) db) refl

    -- What a round leaves.
    abbrev left_by : Bool → Tables S → Writer
    left_by stopped db = record { stopped = stopped; batch = []; db = db }

    collect-apply :
        (queue batch : List PersistEvent) (db : Tables S)
        → collect queue batch db
          ≡ left_by (has_shutdown queue) (apply_all (until_shutdown queue) (apply_all batch db))
    unfolding collect until_shutdown stop_after
    collect-apply [] batch db = flush_batch-apply batch db
    collect-apply (event ∷ queue) batch db = elim (Bool-cases (is_shutdown event)) [
      | inl e ↦ rw (e, collect) (rw (flush_all-apply batch db) refl)
      | inr e ↦
          let added : List PersistEvent = batch ++ event ∷ [] in
          let more = apply_all-append batch (event ∷ []) db in
          elim (Bool-cases (ltb (length added) 50)) [
            | inl few ↦ rw (e, collect) (rw few (collect-apply queue added db ∙ rw more refl))
            | inr many ↦
                rw (e, collect)
                  (rw many (
                    collect-apply queue [] (flush added db)
                    ∙ rw (flush_all-apply added db) (rw more refl)))
          ]
    ]

    round-apply :
        (wake : Wake) (db : Tables S)
        → round wake [] db ≡ left_by (ends wake) (apply_all (arrived wake) db)
    unfolding round stop_after
    round-apply timed_out db = flush_batch-apply [] db
    round-apply (closed queue) db = rw (flush_all-apply (until_shutdown queue) db) refl
    round-apply (woken event queue) db = elim (Bool-cases (is_shutdown event)) [
      | inl e ↦ rw (e, round) (rw (flush_all-apply (until_shutdown queue) db) refl)
      | inr e ↦ rw (e, round) (collect-apply queue (event ∷ []) db)
    ]

    -- Whatever bursts events come in and however they are batched, the tables in the end are what
    -- the events that count make of them one after another, in their order, where every flush
    -- succeeds. All events count up to the first `Shutdown`, or up to the closing of the channel. A
    -- `Shutdown` that wakes the writer, and the closing, also let in what is then in the channel up
    -- to another `Shutdown`; a `Shutdown` behind other events of a burst drops what is behind it.
    pub bg_writer_lem :
        (wakes : List Wake) (db : Tables S) → bg_writer wakes db ≡ apply_all (all_arrived wakes) db
    unfolding bg_writer
    bg_writer_lem [] db = refl
    bg_writer_lem (wake ∷ wakes) db = elim (Bool-cases (ends wake)) [
      | inl e ↦ rw (round-apply wake db) (rw e refl)
      | inr e ↦ rw (round-apply wake db) (
          rw e (
            bg_writer_lem wakes (apply_all (arrived wake) db)
            ∙ sym (apply_all-append (arrived wake) (all_arrived wakes) db)))
    ]
