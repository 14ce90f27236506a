-- ===== src/BlobIndex/Store/Runs.antt =====
-- Runs of add_blob, as the store sees them.
use camlispp.Prelude.{
  ◌≡◌, ◌≢◌, refl, sym, ap, ◌∙◌, inl, inr, List, [], ◌∷◌, ◌++◌, none, some, length, All, Bool-cases,
}
use mathlib.Core.Path.{fun_ext}
use camlispp.StdString.{Bytes, str_eq, str_eq_iff}
use camlispp.StdMap.{assign-IsSorted}
use camlispp.BlobKey.Order.{key_order}
use camlispp.Config.{Config}
use camlispp.Hash.{Crypto}
use camlispp.BlobIndex.Defs.{done, Disk, BlobIndex, add_blob}
use camlispp.BlobIndex.Spec.{path_of, accepted, stored, add_blob_eq}
use camlispp.BlobIndex.Store.{
  content_at, put, put_all, add_all, HasRoom, IsStore, NoClash, NoClashes,
}
use camlispp.BlobIndex.Store.Step.{
  stored_file, stored_elsewhere, stored-writable, content_at-accepted, accepted-IsFilled,
}

module _ (crypto : Crypto) (config : Config) where
  HasRoom-stored :
      (content other : Bytes) (d : Disk)
      → NoClash crypto config content other
      → HasRoom crypto config d content
      → HasRoom crypto config d other
      → HasRoom crypto config (stored crypto config content d) other
  HasRoom-stored content other d n room h =
      let mine = path_of crypto config content in
      let path = path_of crypto config other in
      elim (Bool-cases (str_eq mine path)) [
        | inl e ↦
            let same = (str_eq_iff mine path).0 e in
            (
              h.0,
              inr (
                  ap (stored crypto config content d).file (sym same)
                  ∙ stored_file crypto config content d room
                  ∙ ap some (n same)),
            )
        | inr e ↦
            let away =
              stored_elsewhere crypto config content d path
                (λ q. cc ((str_eq_iff mine path).1 q)) in
            elim h.1 [
              | inl (absent, w) ↦
                  (h.0, inl (away ∙ absent, stored-writable crypto config content d path ∙ w))
              | inr held ↦ (h.0, inr (away ∙ held))
            ]
      ]

  All-HasRoom-stored :
      (content : Bytes) (contents : List Bytes) (d : Disk)
      → All (NoClash crypto config content) contents
      → HasRoom crypto config d content
      → All (HasRoom crypto config d) contents
      → All (HasRoom crypto config (stored crypto config content d)) contents
  All-HasRoom-stored content [] d n room h = tt
  All-HasRoom-stored content (other ∷ contents) d n room h = (
    HasRoom-stored content other d n.0 room h.0,
    All-HasRoom-stored content contents d n.1 room h.1,
  )

  -- One add_blob puts its content into the store.
  pub content_at-add_blob :
      (content : Bytes) (i : BlobIndex)
      → content ≢ []
      → IsStore i
      → HasRoom crypto config i.disk content
      → (add_blob crypto config none content i
          ≡ done (some (length i.heap), accepted crypto config content i))
        × IsStore (accepted crypto config content i)
        × (content_at (accepted crypto config content i) ≡ put crypto config content (content_at i))
  content_at-add_blob [] i n s room = absurd (n refl)
  content_at-add_blob (c ∷ cs) i n s room = (
    add_blob_eq crypto config none c cs i,
    record {
      sorted = assign-IsSorted _ _ _ (assign-IsSorted _ _ _ s.sorted);
      filled = accepted-IsFilled crypto config (c ∷ cs) i s.sorted s.filled room;
    },
    fun_ext (λ k. content_at-accepted crypto config (c ∷ cs) i k s.sorted s.filled room),
  )

  -- The index refines the store: after add_blob for each of several contents, it shows under every
  -- key what the store shows after the contents were put into it, if it showed the same before, and
  -- there is still room for the contents that come later.
  pub content_at-add_all :
      (contents later : List Bytes) (i : BlobIndex)
      → All (λ c. c ≢ []) contents
      → NoClashes crypto config (contents ++ later)
      → All (HasRoom crypto config i.disk) (contents ++ later)
      → IsStore i
      → (j : BlobIndex) × (add_all crypto config contents i ≡ done j)
        × IsStore j
        × (content_at j ≡ put_all crypto config contents (content_at i))
        × All (HasRoom crypto config j.disk) later
  content_at-add_all [] later i n clash room s = (i, refl, s, refl, room)
  content_at-add_all (content ∷ contents) later i n clash room s =
      let (e, t, f) = content_at-add_blob content i n.0 s room.0 in
      let more = All-HasRoom-stored content (contents ++ later) i.disk clash.0 room.0 room.1 in
      let (j, g, u, h, r) =
        content_at-add_all contents later (accepted crypto config content i) n.1 clash.1 more t in
      (j, rw (e, add_all) g, u, h ∙ ap (put_all crypto config contents) f, r)

  pub NoClashes-later :
      (contents later : List Bytes)
      → NoClashes crypto config (contents ++ later)
      → NoClashes crypto config later
  NoClashes-later [] later h = h
  NoClashes-later (content ∷ contents) later h = NoClashes-later contents later h.1
