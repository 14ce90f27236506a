-- ===== src/Http/Connection.antt =====
-- blobserver/src/connection.cpp: one connection, from the first read to the end of the write. The
-- handlers of a connection run one after the other (its strand), and each is called with the
-- event that it waits for. A connection that starts no new operation is destroyed.
pub mod Chunks
use camlispp.Prelude.{ℕ, Bool, true, false, List, [], ◌∷◌, ◌++◌, Option, none, some}
use camlispp.StdString.{Bytes}
use camlispp.Config.{Config}
use camlispp.BlobIndex.{Outcome, aborted, done, BlobIndex}
use camlispp.Http.Request.{Request, cleared}
use camlispp.Http.RequestParser.{
  RequestParser, Tribool, is_true, is_false, indeterminate, Parsed, parse, initial,
}
use camlispp.Http.Reply.{Reply, bad_request, stock_reply, to_buffers}
use camlispp.Http.RequestHandler.{Libraries, handle_request}

-- What the connection waits for; `shut` is a connection whose socket was shut down, `dropped` one
-- that ended by an error.
pub data Phase : Type 0 where
  reading writing shut dropped : Phase

pub record Connection : Type 0 where
  pub phase : Phase
  pub parser : RequestParser
  pub request : Request
  -- the buffers of every async_write
  pub written : List (List Bytes)

-- The state behind the constructor and `start`.
abbrev pub start : ℕ → Connection
start uninitialised = record {
  phase = reading;
  parser = initial uninitialised;
  request = cleared;
  written = [];
}

-- the ends of the operations that the connection starts; a read that fails carries no bytes
pub data Event : Type 0 where
  read : Bytes → Event
  read_failed write_finished write_failed : Event

abbrev pub write_reply : Parsed → Connection → Reply → Connection
write_reply d c rep = record c {
  phase = writing;
  parser = d.parser;
  request = d.request;
  written = c.written ++ (to_buffers rep ∷ []);
}

abbrev pub replied :
    Parsed → Connection → Outcome (Reply × BlobIndex) → Outcome (Connection × BlobIndex)
replied d c aborted = aborted
replied d c (done (rep, i)) = done (write_reply d c rep, i)

module _ (l : Libraries) (config : Config) where
  -- handle_read with no error, behind the call of parse
  unfoldable pub after_parse :
      Tribool → Parsed → Connection → BlobIndex → Outcome (Connection × BlobIndex)
  unfolding handle_request stock_reply
  after_parse is_true d c i = replied d c (handle_request l config d.request i)
  after_parse is_false d c i = done (write_reply d c (stock_reply bad_request), i)
  after_parse indeterminate d c i = done (record c { parser = d.parser; request = d.request }, i)

  unfoldable pub handle_read : Bytes → Connection → BlobIndex → Outcome (Connection × BlobIndex)
  unfolding parse after_parse
  handle_read input c i = let d = parse c.parser c.request input in after_parse d.result d c i

  -- One event in each phase; an event that the phase does not wait for does not occur.
  unfoldable pub handle_event :
      Phase → Event → Connection → BlobIndex → Outcome (Connection × BlobIndex)
  unfolding handle_read
  handle_event reading (read input) c i = handle_read input c i
  handle_event reading read_failed c i = done (record c { phase = dropped }, i)
  handle_event writing write_finished c i = done (record c { phase = shut }, i)
  handle_event writing write_failed c i = done (record c { phase = dropped }, i)
  handle_event _ _ c i = done (c, i)

  unfoldable pub run_connection :
      List Event → Connection → BlobIndex → Outcome (Connection × BlobIndex)
  unfolding handle_event
  run_connection [] c i = done (c, i)
  run_connection (e ∷ es) c i = elim (handle_event c.phase e c i) [
    | aborted ↦ aborted
    | done (c', i') ↦ run_connection es c' i'
  ]
