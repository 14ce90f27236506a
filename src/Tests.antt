-- ===== src/Tests.antt =====
-- Tests: each theorem with hypotheses at a concrete input, and a few runs. The libraries are
-- stand-ins that return what they are given.
mod Qi
mod Keys
mod Index
mod Parser
mod Handlers
mod Sending
mod Uploads
mod Forms
mod Store
mod Server
mod Exchange
mod Getting
mod Following
use camlispp.Prelude.{ℕ, [], ◌∷◌, Option, none, some, true}
use camlispp.StdString.{Bytes, bytes}
use camlispp.Config.{Config, default_config}
use camlispp.Hash.{Crypto}
use camlispp.BlobIndex.{Disk, BlobIndex, empty_index}
use camlispp.Http.Multipart.{Grammars}
use camlispp.Http.RequestHandler.{Libraries}

abbrev pub test_crypto : Crypto
test_crypto = record { sha1_hex = λ s. s; sha256_hex = λ s. s }

abbrev pub test_grammars : Grammars
test_grammars = record {
  keys_and_values = λ s. some ((bytes "blob1", s) ∷ []);
  header_tokens = λ s. some ((bytes "boundary", s) ∷ []);
  chunks = λ boundary s. some (s ∷ []);
  chunk_tokens = λ s. some (s ∷ []);
}

abbrev pub test_libraries : Libraries
test_libraries = record {
  crypto = test_crypto;
  grammars = test_grammars;
  write_json = λ v. bytes "{}";
  compress = λ f s. s;
}

abbrev pub test_config : Config
test_config = default_config

abbrev pub test_disk : Disk
test_disk = record { file = λ path. none; writable = λ path. true; directories = [] }

abbrev pub test_index : BlobIndex
test_index = empty_index test_disk
