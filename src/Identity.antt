-- ===== src/Identity.antt =====
-- packages/core/src/identity.ts: which known file a scanned file is.
--
-- `sha256Hex` is an argument. A device's and an inode's number are natural numbers; the two lookups
-- are the table of the files, as functions.
pub mod Keys
mod Tests
use trawlarr.Prelude.{ℕ, ◌≡◌, Bool, Option, none, some, List, [], ◌∷◌, ◌++◌, Str, codes, decimal}

pub data IdentityKind : Type 0 where
  inode content : IdentityKind

pub record PartialHashParts : Type 0 where
  pub size_bytes : ℕ
  pub head_hex : Str
  pub tail_hex : Str

pub record IdentityCandidate : Type 0 where
  pub inode_key : Option Str
  pub content_key : Str

pub record IdentityLookup : Type 0 where
  pub by_inode_key : Str → Option Str
  pub by_content_key : Str → Option Str

unfoldable pub inode_key_of : ℕ → ℕ → Str
inode_key_of device inode_number = decimal device ++ b':' ∷ decimal inode_number

unfoldable pub content_key_of : (Str → Str) → PartialHashParts → Str
content_key_of sha256_hex parts =
    sha256_hex (decimal parts.size_bytes ++ b':' ∷ parts.head_hex ++ b':' ∷ parts.tail_hex)

abbrev inode_key_from : Option ℕ → Option ℕ → Option Str
unfolding inode_key_of
inode_key_from none inode_number = none
inode_key_from (some device) none = none
inode_key_from (some device) (some inode_number) = some (inode_key_of device inode_number)

unfoldable pub build_identity_candidate :
    (Str → Str) → Option ℕ → Option ℕ → PartialHashParts → IdentityCandidate
unfolding inode_key_from content_key_of
build_identity_candidate sha256_hex device inode_number hash = record {
  inode_key = inode_key_from device inode_number;
  content_key = content_key_of sha256_hex hash;
}

abbrev pub found_by_content : Option Str → Option (Str × IdentityKind)
found_by_content none = none
found_by_content (some file) = some (file, content)

abbrev pub found_by_inode : Option Str → Option (Str × IdentityKind) → Option (Str × IdentityKind)
found_by_inode none otherwise = otherwise
found_by_inode (some file) otherwise = some (file, inode)

abbrev at_key : (Str → Option Str) → Option Str → Option Str
at_key lookup none = none
at_key lookup (some key) = lookup key

unfoldable pub match_identity : IdentityCandidate → IdentityLookup → Option (Str × IdentityKind)
match_identity candidate lookup =
    found_by_inode (at_key lookup.by_inode_key candidate.inode_key)
      (found_by_content (lookup.by_content_key candidate.content_key))
