-- ===== src/Metadata.antt =====
-- metadata.rs: custom metadata. A method on `&mut self` returns the new metadata and its result.
pub mod Key
pub mod Invariant
pub mod RoundTrip
use trillium_grpc.Prelude.{
  ℕ, ◌||◌, not, Bool, true, false, List, [], ◌∷◌, ◌++◌, Option, none, some, Bytes, codes, beq,
  ends_with, if◌then◌else◌, Result, ok, err, length, ◌>>◌,
}
use trillium_grpc.Text.Ascii.{to_ascii_lowercase}
use trillium_grpc.Deps.{HeadersApi, Base64}
use trillium_grpc.Metadata.Key.{
  MetadataError, reserved_key, ascii_key_has_bin_suffix, binary_key_missing_bin_suffix,
  invalid_ascii_value, validate_key, is_valid_key, is_valid_ascii_value, is_reserved,
}

pub data MetadataValue : Type 0 where
  ascii : Bytes → MetadataValue
  binary : Bytes → MetadataValue

unfoldable pub as_ascii : MetadataValue → Option Bytes
as_ascii (ascii s) = some s
as_ascii (binary b) = none

unfoldable pub as_binary : MetadataValue → Option Bytes
as_binary (ascii s) = none
as_binary (binary b) = some b

abbrev pub Entry : Type 0
Entry = Bytes × MetadataValue

pub record Metadata : Type 0 where
  pub entries : List Entry

abbrev pub new : Metadata
new = record { entries = [] }

unfoldable pub is_empty : Metadata → Bool
is_empty m = elim m.entries [ [] ↦ true | _ ↦ false ]

unfoldable pub len : Metadata → ℕ
len m = length m.entries

push : Metadata → Entry → Metadata
push m e = record { entries = m.entries ++ e ∷ [] }

-- What `insert_ascii` and `insert_binary` check, in order.
check_ascii : Bytes → Bytes → Result MetadataError (Unit {0})
check_ascii key value = do
  validate_key key
  if is_reserved key then err (reserved_key key) else ok tt
  if ends_with key (codes "-bin") then err (ascii_key_has_bin_suffix key) else ok tt
  if not (is_valid_ascii_value value) then err invalid_ascii_value else ok tt

check_binary : Bytes → Result MetadataError (Unit {0})
check_binary key = do
  validate_key key
  if is_reserved key then err (reserved_key key) else ok tt
  if not (ends_with key (codes "-bin")) then err (binary_key_missing_bin_suffix key) else ok tt

push_if :
    Result MetadataError (Unit {0}) → Metadata → Entry → Metadata × Result MetadataError (Unit {0})
unfolding push
push_if (ok _) m e = (push m e, ok tt)
push_if (err x) m e = (m, err x)

unfoldable pub insert_ascii : Metadata → Bytes → Bytes → Metadata × Result MetadataError (Unit {0})
unfolding push_if check_ascii
insert_ascii m key value = push_if (check_ascii key value) m (key, ascii value)

unfoldable pub insert_binary : Metadata → Bytes → Bytes → Metadata × Result MetadataError (Unit {0})
unfolding push_if check_binary
insert_binary m key value = push_if (check_binary key) m (key, binary value)

find_ascii : Bytes → List Entry → Option Bytes
find_ascii key [] = none
find_ascii key ((k, ascii s) ∷ es) = if beq k key then some s else find_ascii key es
find_ascii key ((k, binary b) ∷ es) = find_ascii key es

find_binary : Bytes → List Entry → Option Bytes
find_binary key [] = none
find_binary key ((k, ascii s) ∷ es) = find_binary key es
find_binary key ((k, binary b) ∷ es) = if beq k key then some b else find_binary key es

unfoldable pub get_ascii : Metadata → Bytes → Option Bytes
unfolding find_ascii
get_ascii m key = find_ascii key m.entries

unfoldable pub get_binary : Metadata → Bytes → Option Bytes
unfolding find_binary
get_binary m key = find_binary key m.entries

module _ ⦃api : HeadersApi⦄ ⦃b64 : Base64⦄ where
  -- The value that a header value stands for under a key, or nothing where it is skipped.
  read_value : Bool → Bytes → Option MetadataValue
  read_value true value = elim (b64.decode value) [ none ↦ none | some b ↦ some (binary b) ]
  read_value false value = elim (api.as_str value) [ none ↦ none | some s ↦ some (ascii s) ]

  read_values : Bytes → List Bytes → List Entry
  unfolding read_value
  read_values key [] = []
  read_values key (v ∷ vs) =
      let rest = read_values key vs in
      elim (read_value (ends_with key (codes "-bin")) v) [
        | none ↦ rest
        | some value ↦ (key, value) ∷ rest
      ]

  read_headers : List (Bytes × List Bytes) → List Entry
  unfolding read_values
  read_headers [] = []
  read_headers ((name, values) ∷ rest) =
      let key = to_ascii_lowercase name in
      if is_reserved key || not (is_valid_key key)
      then read_headers rest
      else read_values key values ++ read_headers rest

  unfoldable pub from_headers : api.Headers → Metadata
  unfolding read_headers
  from_headers headers = record { entries = read_headers (api.iter headers) }

  unfoldable pub wire_value : MetadataValue → Bytes
  wire_value (ascii v) = v
  wire_value (binary b) = b64.encode b

  unfoldable pub write_entries : List Entry → api.Headers → api.Headers
  unfolding wire_value
  write_entries [] headers = headers
  write_entries ((key, value) ∷ es) headers =
      write_entries es (api.append headers key (wire_value value))

  unfoldable pub write_into : Metadata → api.Headers → api.Headers
  unfolding write_entries
  write_into m headers = write_entries m.entries headers
