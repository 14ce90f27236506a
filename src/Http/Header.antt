-- ===== src/Http/Header.antt =====
-- blobserver/src/header.cpp: a header's name and value, and the writers that push one character.
use camlispp.Prelude.{ℕ, List, [], ◌∷◌, ◌++◌}
use camlispp.StdString.{Bytes}

pub record Header : Type 0 where
  pub name : Bytes
  pub value : Bytes

abbrev pub new_header : Header
new_header = record { name = []; value = [] }

-- header::name(char) and header::value(char)
unfoldable pub push_name : ℕ → Header → Header
push_name c h = record h { name = h.name ++ (c ∷ []) }

unfoldable pub push_value : ℕ → Header → Header
push_value c h = record h { value = h.value ++ (c ∷ []) }

-- `headers.back()` changed; the vector is not empty where the program does so
unfoldable pub modify_back : (Header → Header) → List Header → List Header
modify_back f [] = []
modify_back f (h ∷ []) = f h ∷ []
modify_back f (h ∷ g ∷ hs) = h ∷ modify_back f (g ∷ hs)
