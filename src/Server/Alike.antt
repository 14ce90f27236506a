-- ===== src/Server/Alike.antt =====
-- Connections that differ in the texts of their replies only: one event keeps them so.
use camlispp.Prelude.{◌≡◌, refl, sym, ap, ◌∙◌, [], ◌∷◌, arith, length, length-append}
use camlispp.StdString.{Bytes}
use camlispp.Config.{Config}
use camlispp.BlobIndex.{Outcome, done, BlobIndex}
use camlispp.Http.Request.{Request}
use camlispp.Http.RequestParser.{
  RequestParser, Tribool, is_true, is_false, indeterminate, Parsed, parse,
}
use camlispp.Http.Reply.{Reply, to_buffers, bad_request, stock_reply}
use camlispp.Http.RequestHandler.{Libraries}
use camlispp.Http.RequestHandler.Routes.{handle_request-Returns}
use camlispp.Http.Connection.{
  Phase, reading, writing, shut, dropped, Connection, Event, read, read_failed, write_finished,
  write_failed, after_parse, handle_read, handle_event, replied, write_reply,
}

-- Two connections that are alike but for the texts of their replies.
pub record IsAlike (c d : Connection) : Type 0 where
  pub phase : c.phase ≡ d.phase
  pub parser : c.parser ≡ d.parser
  pub request : c.request ≡ d.request
  pub replies : length c.written ≡ length d.written

pub IsAlike-refl : (c : Connection) → IsAlike c c
IsAlike-refl c = record { phase = refl; parser = refl; request = refl; replies = refl }

write_reply-IsAlike :
    (p : Parsed) (c d : Connection) (r q : Reply)
    → IsAlike c d
    → IsAlike (write_reply p c r) (write_reply p d q)
write_reply-IsAlike p c d r q h = record {
  phase = refl;
  parser = refl;
  request = refl;
  replies = omega (
    arith,
    h.replies,
    length-append c.written (to_buffers r ∷ []),
    length-append d.written (to_buffers q ∷ []),
  );
}

abbrev pub BothAlike : Outcome (Connection × BlobIndex) → Outcome (Connection × BlobIndex) → Type 0
BothAlike o q =
    (c : Connection) × (i : BlobIndex) × (d : Connection) × (j : BlobIndex) × (o ≡ done (c, i))
    × (q ≡ done (d, j))
    × IsAlike c d

module _ (l : Libraries) (config : Config) where
  after_parse-BothAlike :
      (b : Tribool) (p : Parsed) (c d : Connection) (i j : BlobIndex)
      → IsAlike c d
      → BothAlike (after_parse l config b p c i) (after_parse l config b p d j)
  unfolding after_parse
  after_parse-BothAlike is_true p c d i j h =
      let ((r, i'), e) = handle_request-Returns l config p.request i in
      let ((q, j'), f) = handle_request-Returns l config p.request j in
      (_, i', _, j', ap (replied p c) e, ap (replied p d) f, write_reply-IsAlike p c d r q h)
  after_parse-BothAlike is_false p c d i j h = (
    _,
    i,
    _,
    j,
    refl,
    refl,
    write_reply-IsAlike p c d (stock_reply bad_request) (stock_reply bad_request) h,
  )
  after_parse-BothAlike indeterminate p c d i j h = (
    _,
    i,
    _,
    j,
    refl,
    refl,
    record { phase = h.phase; parser = refl; request = refl; replies = h.replies },
  )

  read-BothAlike :
      (input : Bytes) (c d : Connection) (i j : BlobIndex)
      → IsAlike c d
      → BothAlike (handle_read l config input c i) (handle_read l config input d j)
  unfolding handle_read
  read-BothAlike input c d i j h =
      let p = parse c.parser c.request input in
      let same : p ≡ parse d.parser d.request input =
        ap (λ (x : RequestParser). parse x c.request input) h.parser
        ∙ ap (λ (x : Request). parse d.parser x input) h.request in
      let (c', i', d', j', e, f, a) = after_parse-BothAlike p.result p c d i j h in
      (
        c',
        i',
        d',
        j',
        e,
        ap (λ (q : Parsed). after_parse l config q.result q d j) (sym same) ∙ f,
        a,
      )

  abbrev moved : Phase → Connection → Connection
  moved ph c = record c { phase = ph }

  moved-IsAlike : (ph : Phase) (c d : Connection) → IsAlike c d → IsAlike (moved ph c) (moved ph d)
  moved-IsAlike ph c d h = record {
    phase = refl;
    parser = h.parser;
    request = h.request;
    replies = h.replies;
  }

  pub event-BothAlike :
      (ph : Phase) (e : Event) (c d : Connection) (i j : BlobIndex)
      → IsAlike c d
      → BothAlike (handle_event l config ph e c i) (handle_event l config ph e d j)
  unfolding handle_event
  event-BothAlike reading (read input) c d i j h = read-BothAlike input c d i j h
  event-BothAlike reading read_failed c d i j h =
      (_, i, _, j, refl, refl, moved-IsAlike dropped c d h)
  event-BothAlike reading write_finished c d i j h = (c, i, d, j, refl, refl, h)
  event-BothAlike reading write_failed c d i j h = (c, i, d, j, refl, refl, h)
  event-BothAlike writing (read input) c d i j h = (c, i, d, j, refl, refl, h)
  event-BothAlike writing read_failed c d i j h = (c, i, d, j, refl, refl, h)
  event-BothAlike writing write_finished c d i j h =
      (_, i, _, j, refl, refl, moved-IsAlike shut c d h)
  event-BothAlike writing write_failed c d i j h =
      (_, i, _, j, refl, refl, moved-IsAlike dropped c d h)
  event-BothAlike shut (read input) c d i j h = (c, i, d, j, refl, refl, h)
  event-BothAlike shut read_failed c d i j h = (c, i, d, j, refl, refl, h)
  event-BothAlike shut write_finished c d i j h = (c, i, d, j, refl, refl, h)
  event-BothAlike shut write_failed c d i j h = (c, i, d, j, refl, refl, h)
  event-BothAlike dropped (read input) c d i j h = (c, i, d, j, refl, refl, h)
  event-BothAlike dropped read_failed c d i j h = (c, i, d, j, refl, refl, h)
  event-BothAlike dropped write_finished c d i j h = (c, i, d, j, refl, refl, h)
  event-BothAlike dropped write_failed c d i j h = (c, i, d, j, refl, refl, h)
