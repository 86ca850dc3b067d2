-- ===== src/Name/Uri.antt =====
-- name.cpp: the URI of a name. A string is the list of its bytes.
pub mod Characters
pub mod Loop
pub mod RoundTrip
pub mod Ends
use ndn_cxx_logging.Base.{
  ℕ, zero, suc, ◌+◌, Bool, true, false, Option, none, some, List, [], ◌∷◌, ◌++◌, ltb, ◌==◌,
  if◌then◌else◌, length, drop, Result, ok, err,
}
use ndn_cxx_logging.Base.Strings.{find_char}
use ndn_cxx_logging.Tlv.{Error}
use ndn_cxx_logging.Block.{Block, elements}
use ndn_cxx_logging.StringHelper.{Libraries}
use ndn_cxx_logging.Component.{to_uri as component_to_uri, from_escaped_string}
use ndn_cxx_logging.Name.{Name, empty_name, size, append}

-- The string behind a protocol such as "ndn:", whose colon is in front of every slash.
unfoldable pub after_protocol : Libraries → List ℕ → List ℕ
after_protocol l uri = elim (find_char b':' uri) [
  | none ↦ uri
  | some i_colon ↦ elim (find_char b'/' uri) [
    | none ↦ l.trim (drop (suc i_colon) uri)
    | some i_first_slash ↦
        if ltb i_colon i_first_slash then l.trim (drop (suc i_colon) uri) else uri
  ]
]

-- What is behind the first slash: behind a second one, an authority and its slash are skipped, and
-- `none` is the return if there is only an authority.
unfoldable pub after_first_slash : Libraries → List ℕ → Option (List ℕ)
after_first_slash l [] = some (l.trim [])
after_first_slash l (c ∷ uri) =
    if c == b'/'
    then elim (find_char b'/' uri) [
      | none ↦ none
      | some i_after_authority ↦ some (l.trim (drop (suc i_after_authority) uri))
    ]
    else some (l.trim (c ∷ uri))

unfoldable pub after_authority : Libraries → List ℕ → Option (List ℕ)
unfolding after_first_slash
after_authority l [] = some []
after_authority l (c ∷ uri) = if c == b'/' then after_first_slash l uri else some (c ∷ uri)

-- `iComponentEnd`
unfoldable pub component_end : List ℕ → ℕ → ℕ
component_end uri start = elim (find_char b'/' (drop start uri)) [
  | none ↦ length uri
  | some i ↦ start + i
]

-- The loop over the components. `none` is none of the code's: the loop ran out of fuel.
unfoldable pub construct_loop : ℕ → Libraries → List ℕ → ℕ → Name → Option (Result Error Name)
unfolding component_end
construct_loop zero l uri start name = if ltb start (length uri) then none else some (ok name)
construct_loop (suc fuel) l uri start name = elim (ltb start (length uri)) [
  | false ↦ some (ok name)
  | true ↦ elim (from_escaped_string l uri start (component_end uri start)) [
    | err e ↦ some (err e)
    | ok component ↦
        construct_loop fuel l uri (suc (component_end uri start)) (append name component)
  ]
]

-- construct(uri), and the constructors from a string: each round passes a character of the string or
-- its end, so its length is enough fuel.
unfoldable pub construct : Libraries → List ℕ → Option (Result Error Name)
construct l uri_orig =
    let uri = l.trim uri_orig in
    if length uri == 0
    then some (ok empty_name)
    else elim (after_authority l (after_protocol l uri)) [
      | none ↦ some (ok empty_name)
      | some rest ↦ construct_loop (length rest) l rest 0 empty_name
    ]

-- The loop of operator<<.
unfoldable pub components_to_uri : List Block → List ℕ
components_to_uri [] = []
components_to_uri (c ∷ cs) = b'/' ∷ (component_to_uri c ++ components_to_uri cs)

-- toUri, and operator<<
unfoldable pub to_uri : Name → List ℕ
unfolding components_to_uri
to_uri name = if size name == 0 then b'/' ∷ [] else components_to_uri (elements name)
