-- ===== src/Main/Restart.antt =====
-- The server that main starts: what it finds.
use camlispp.Prelude.{◌≡◌}
use camlispp.Config.{Config}
use camlispp.StdMap.{find}
use camlispp.BlobKey.{BlobKey}
use camlispp.BlobKey.Order.{key_order}
use camlispp.BlobIndex.{done, Disk}
use camlispp.BlobIndex.Store.{empty_index-IsStore}
use camlispp.Http.Request.{Request}
use camlispp.Http.Reply.{not_found, stock_reply}
use camlispp.Http.RequestHandler.{Libraries, handle_request}
use camlispp.Http.RequestHandler.Store.{IsFetch, handle_request-content_at}
use camlispp.Main.{first_index}

-- After a start no blob is found, whatever files there are: a GET of the text of a key of the two
-- types without a dot, which asks for no compression, is answered with "not found".
pub handle_request-first_index :
    (l : Libraries) (config : Config) (d : Disk) (k : BlobKey) (req : Request)
    → IsFetch k req
    → handle_request l config req (first_index d) ≡ done (stock_reply not_found, first_index d)
unfolding first_index find
handle_request-first_index l config d k req f =
    handle_request-content_at l config k req (first_index d) f (empty_index-IsStore d).filled
