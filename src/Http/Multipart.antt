-- ===== src/Http/Multipart.antt =====
-- blobserver/src/boost-multipart-form.cpp and boost-multipart-form.h: the parts of a form that
-- was posted. The four grammars of the program come as a record, which Http/Grammars fills: each parse
-- returns the attribute, or nothing where qi::parse returns false.
use camlispp.Prelude.{ℕ, ◌+◌, List, [], ◌∷◌, ◌++◌, Option, none, some, ◌==◌, if◌then◌else◌}
use camlispp.StdString.{Bytes, str_eq, find, npos, to_unsigned, substr, substr_n, to_lower_copy}

-- A std::map of strings: its entries in the order of the keys.
abbrev pub Attributes : Type 0
Attributes = List (Bytes × Bytes)

pub record Grammars : Type 0 where
  pub keys_and_values : Bytes → Option Attributes
  pub header_tokens : Bytes → Option Attributes
  pub chunks : Bytes → Bytes → Option (List Bytes)
  pub chunk_tokens : Bytes → Option (List Bytes)

-- blobserver::Header
pub record FormHeader : Type 0 where
  pub name : Bytes
  pub attributes : Attributes

-- Header::attributeValue
unfoldable pub find_attribute : Bytes → Attributes → Option Bytes
unfolding to_lower_copy str_eq
find_attribute lower_name [] = none
find_attribute lower_name ((k, v) ∷ rest) =
    if str_eq (to_lower_copy k) lower_name then some v else find_attribute lower_name rest

unfoldable pub attribute_value : Bytes → FormHeader → Option Bytes
unfolding find_attribute
attribute_value name h = find_attribute (to_lower_copy name) h.attributes

pub record Part : Type 0 where
  pub headers : List FormHeader
  pub payload : Bytes

abbrev pub new_part : Part
new_part = record { headers = []; payload = [] }

-- Part::payload(payload) and Part::add_header(Header*)
abbrev pub set_payload : Bytes → Part → Part
set_payload payload part = record part { payload = payload }

abbrev pub add_header : FormHeader → Part → Part
add_header header part = record part { headers = part.headers ++ (header ∷ []) }

pub record MultiPartFormData : Type 0 where
  pub boundry : Bytes
  pub parts : List Part

abbrev pub set_boundry : Bytes → MultiPartFormData → MultiPartFormData
set_boundry boundry form = record form { boundry = boundry }

abbrev pub add_part : Part → MultiPartFormData → MultiPartFormData
add_part part form = record form { parts = form.parts ++ (part ∷ []) }

-- boost::erase_last for a text of two bytes
unfoldable pub erase_last : ℕ → ℕ → Bytes → Option Bytes
erase_last x y [] = none
erase_last x y (a ∷ []) = none
erase_last x y (a ∷ b ∷ cs) = elim (erase_last x y (b ∷ cs)) [
  | some rest ↦ some (a ∷ rest)
  | none ↦ if (a == x) then (if b == y then some cs else none) else none
]

unfoldable pub erase_last_crlf : Bytes → Bytes
unfolding erase_last
erase_last_crlf s = elim (erase_last b'\r' b'\n' s) [ none ↦ s | some t ↦ t ]

module _ (g : Grammars) where
  -- Part::add_header(std::string)
  unfoldable pub add_header_text : Bytes → Part → Part
  unfolding find
  add_header_text input part =
      let split = to_unsigned (find input (b':' ∷ [])) in
      if split == npos
      then part
      else elim (g.header_tokens (substr input (to_unsigned (split + 1)))) [
        | none ↦ part
        | some attributes ↦
            add_header (record { name = substr_n input 0 split; attributes = attributes }) part
      ]

  -- The last piece is the payload; those in front of it are headers, taken from the back.
  unfoldable pub part_of : List Bytes → Part
  unfolding add_header_text erase_last_crlf
  part_of [] = new_part
  part_of (t ∷ []) = set_payload (erase_last_crlf t) new_part
  part_of (t ∷ u ∷ ts) = add_header_text t (part_of (u ∷ ts))

  -- the loop over the chunks
  unfoldable pub parts_of : List Bytes → List Part
  unfolding part_of
  parts_of [] = []
  parts_of (chunk ∷ rest) = elim (g.chunk_tokens chunk) [
    | none ↦ parts_of rest
    | some pieces ↦ part_of pieces ∷ parts_of rest
  ]

  -- the parts of MultiPartFormData(boundry, input)
  unfoldable pub form_parts : Bytes → Bytes → List Part
  unfolding parts_of
  form_parts boundry input = elim (g.chunks boundry input) [
    | none ↦ []
    | some chunks ↦ parts_of chunks
  ]

  -- the constructor: a form that is not read keeps the empty boundary
  unfoldable pub new_form : Bytes → Bytes → MultiPartFormData
  unfolding form_parts
  new_form boundry input = record {
    boundry = elim (g.chunks boundry input) [ none ↦ [] | some chunks ↦ boundry ];
    parts = form_parts boundry input;
  }
