-- ===== src/Http/Connection/Chunks.antt =====
-- How the bytes of a request are cut into reads does not matter.
use camlispp.Prelude.{ℕ, List, [], ◌∷◌, ◌++◌, ◌≡◌, refl, sym, ap, ◌∙◌, map}
use camlispp.StdString.{Bytes}
use camlispp.Config.{Config}
use camlispp.BlobIndex.{Outcome, aborted, done, BlobIndex}
use camlispp.Http.RequestParser.{
  RequestParser, Tribool, is_true, is_false, indeterminate, Parsed, parse, initial,
}
use camlispp.Http.RequestParser.Chunks.{resume, parse-append}
use camlispp.Http.Request.{Request, cleared}
use camlispp.Http.Reply.{Reply}
use camlispp.Http.RequestHandler.{Libraries, handle_request}
use camlispp.Http.Connection.{
  Phase, reading, writing, Connection, start, Event, read, after_parse, handle_read, handle_event,
  run_connection, replied, write_reply,
}

abbrev pub joined : List Bytes → Bytes
joined [] = []
joined (x ∷ xs) = x ++ joined xs

module _ (l : Libraries) (config : Config) where
  pub event_in :
      (ph : Phase) (e : Event) (c : Connection) (i : BlobIndex)
      → c.phase ≡ ph
      → handle_event l config c.phase e c i ≡ handle_event l config ph e c i
  event_in ph e c i h = ap (λ (q : Phase). handle_event l config q e c i) h

  event_writing :
      (x : Bytes) (c : Connection) (i : BlobIndex)
      → c.phase ≡ writing
      → handle_event l config c.phase (read x) c i ≡ done (c, i)
  unfolding handle_event
  event_writing x c i h = event_in writing (read x) c i h

  event_reading :
      (x : Bytes) (c : Connection) (i : BlobIndex)
      → c.phase ≡ reading
      → handle_event l config c.phase (read x) c i
        ≡ after_parse l config (parse c.parser c.request x).result (parse c.parser c.request x) c i
  unfolding handle_event handle_read
  event_reading x c i h = event_in reading (read x) c i h

  -- what is left of a run behind one event
  abbrev pub follow :
      Outcome (Connection × BlobIndex) → List Event → Outcome (Connection × BlobIndex)
  follow aborted es = aborted
  follow (done (c, i)) es = run_connection l config es c i

  pub run-follow :
      (e : Event) (es : List Event) (c : Connection) (i : BlobIndex)
      → run_connection l config (e ∷ es) c i ≡ follow (handle_event l config c.phase e c i) es
  unfolding run_connection
  run-follow e es c i = go (handle_event l config c.phase e c i) refl
    where
      go :
          (o : Outcome (Connection × BlobIndex))
          → handle_event l config c.phase e c i ≡ o
          → run_connection l config (e ∷ es) c i ≡ follow o es
      go aborted h = rw (h, run_connection)
      go (done (d, j)) h = rw (h, run_connection)

  run_ignored :
      (xs : List Bytes) (c : Connection) (i : BlobIndex)
      → c.phase ≡ writing
      → run_connection l config (map read xs) c i ≡ done (c, i)
  run_ignored [] c i h = unfold run_connection in refl
  run_ignored (x ∷ xs) c i h =
      run-follow (read x) (map read xs) c i
      ∙ ap (λ (o : Outcome (Connection × BlobIndex)). follow o (map read xs))
          (event_writing x c i h)
      ∙ run_ignored xs c i h

  abbrev conclude : Parsed → Connection → BlobIndex → Outcome (Connection × BlobIndex)
  conclude d c i = after_parse l config d.result d c i

  replied_same :
      (d : Parsed) (p : RequestParser) (r : Request) (c : Connection)
      (o : Outcome (Reply × BlobIndex))
      → replied d (record c { parser = p; request = r }) o ≡ replied d c o
  replied_same d p r c aborted = refl
  replied_same d p r c (done z) = refl

  after_parse_same :
      (t : Tribool) (d : Parsed) (p : RequestParser) (r : Request) (c : Connection) (i : BlobIndex)
      → after_parse l config t d (record c { parser = p; request = r }) i
        ≡ after_parse l config t d c i
  unfolding after_parse
  after_parse_same is_true d p r c i = replied_same d p r c (handle_request l config d.request i)
  after_parse_same is_false d p r c i = refl
  after_parse_same indeterminate d p r c i = refl

  follow-replied :
      (d : Parsed) (more : Bytes) (c : Connection) (o : Outcome (Reply × BlobIndex))
      (xs : List Bytes)
      → follow (replied d c o) (map read xs) ≡ replied (record d { rest = more }) c o
  follow-replied d more c aborted xs = refl
  follow-replied d more c (done (rep, i)) xs = run_ignored xs (write_reply d c rep) i refl

  after_first :
      (t : Tribool) (p : RequestParser) (r : Request) (rest : Bytes) (xs : List Bytes)
      (c : Connection) (i : BlobIndex)
      → ((c' : Connection)
          → c'.phase ≡ c.phase
          → run_connection l config (map read xs) c' i
            ≡ conclude (parse c'.parser c'.request (joined xs)) c' i)
      → (let d : Parsed = record { result = t; parser = p; request = r; rest = rest } in
          follow (conclude d c i) (map read xs) ≡ conclude (resume d (joined xs)) c i)
  unfolding after_parse
  after_first is_true p r rest xs c i k =
      follow-replied (record { result = is_true; parser = p; request = r; rest = rest })
        (rest ++ joined xs) c (handle_request l config r i) xs
  after_first is_false p r rest xs c i k = run_ignored xs _ i refl
  after_first indeterminate p r rest xs c i k =
      k (record c { parser = p; request = r }) refl
      ∙ after_parse_same _ (parse p r (joined xs)) p r c i

  run_reads :
      (xs : List Bytes) (c : Connection) (i : BlobIndex)
      → c.phase ≡ reading
      → run_connection l config (map read xs) c i
        ≡ conclude (parse c.parser c.request (joined xs)) c i
  run_reads [] c i h = unfold run_connection parse after_parse in refl
  run_reads (x ∷ xs) c i h =
      let d = parse c.parser c.request x in
      run-follow (read x) (map read xs) c i
      ∙ ap (λ (o : Outcome (Connection × BlobIndex)). follow o (map read xs))
          (event_reading x c i h)
      ∙ after_first d.result d.parser d.request d.rest xs c i
          (λ c' same. run_reads xs c' i (same ∙ h))
      ∙ ap (λ (q : Parsed). conclude q c i) (sym (parse-append c.parser c.request x (joined xs)))

  -- A connection that reads a request in pieces does what parsing the pieces together says: it
  -- waits for more, or answers that the request is bad, or writes the one reply of the handler;
  -- and what is read after that changes nothing.
  pub run_connection-reads :
      (uninitialised : ℕ) (xs : List Bytes) (i : BlobIndex)
      → run_connection l config (map read xs) (start uninitialised) i ≡ (
          let d = parse (initial uninitialised) cleared (joined xs) in
          after_parse l config d.result d (start uninitialised) i)
  run_connection-reads n xs i = run_reads xs (start n) i refl
