-- ===== src/Http/MimeTypes.antt =====
-- blobserver/src/mime_types.cpp: the table of extensions.
use camlispp.Prelude.{List, [], ◌∷◌, if◌then◌else◌}
use camlispp.StdString.{Bytes, bytes, str_eq}

abbrev pub mappings : List (Bytes × Bytes)
mappings =
    (bytes "gif", bytes "image/gif")
    ∷ (bytes "htm", bytes "text/html")
    ∷ (bytes "html", bytes "text/html")
    ∷ (bytes "jpg", bytes "image/jpeg")
    ∷ (bytes "png", bytes "image/png")
    ∷ (bytes "css", bytes "text/css")
    ∷ []

-- the loop over the table
unfoldable pub mime_type_in : List (Bytes × Bytes) → Bytes → Bytes
unfolding str_eq
mime_type_in [] extension = bytes "text/plain"
mime_type_in ((e, t) ∷ m) extension = if str_eq e extension then t else mime_type_in m extension

unfoldable pub extension_to_type : Bytes → Bytes
unfolding mime_type_in
extension_to_type extension = mime_type_in mappings extension
