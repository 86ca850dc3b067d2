-- ===== src/Name/Uri/RoundTrip.antt =====
-- name.cpp: construct against toUri.
use ndn_cxx_logging.Base.{
  ℕ, ◌<◌, ◌≡◌, ◌≢◌, refl, ◌∙◌, false, some, List, [], ◌∷◌, ◌++◌, map, ◌==◌, if◌then◌else◌, length,
  arith, ok, All, All-append,
}
use ndn_cxx_logging.Block.{Block, elements}
use ndn_cxx_logging.StringHelper.{Libraries, IsDocumented, is_space}
use ndn_cxx_logging.Component.{to_uri as component_to_uri}
use ndn_cxx_logging.Name.{Name, empty_name}
use ndn_cxx_logging.Name.SubName.{name_of}
use ndn_cxx_logging.Name.Uri.{
  construct_loop, construct, components_to_uri, to_uri, after_protocol, after_authority,
  after_first_slash,
}
use ndn_cxx_logging.Name.Uri.Characters.{IsOrdinary, component_to_uri-IsOrdinary}
use ndn_cxx_logging.Base.Strings.{find_char-none}
use ndn_cxx_logging.Name.Uri.Loop.{IsNamed, reread, loop_done, loop_rest}

-- A character of the URI of a name: no space and no colon.
abbrev IsInUri : ℕ → Type 0
IsInUri x = (is_space x ≡ false) × (x ≢ b':')

ordinary-IsInUri : (s : List ℕ) → All IsOrdinary s → All IsInUri s
ordinary-IsInUri [] h = tt
ordinary-IsInUri (x ∷ s) h = ((h.0.0, h.0.2), ordinary-IsInUri s h.1)

not_space : (s : List ℕ) → All IsInUri s → All (λ x. is_space x ≡ false) s
not_space [] h = tt
not_space (x ∷ s) h = (h.0.0, not_space s h.1)

no_colon : (s : List ℕ) → All IsInUri s → All (λ x. x ≢ b':') s
no_colon [] h = tt
no_colon (x ∷ s) h = (h.0.1, no_colon s h.1)

components_to_uri-IsInUri : (cs : List Block) → All IsNamed cs → All IsInUri (components_to_uri cs)
unfolding components_to_uri
components_to_uri-IsInUri [] h = tt
components_to_uri-IsInUri (c ∷ cs) h = (
  (refl, omega arith),
  All-append IsInUri (component_to_uri c) (components_to_uri cs)
      (ordinary-IsInUri _ (component_to_uri-IsOrdinary c h.0.0).0)
      (components_to_uri-IsInUri cs h.1),
)

after_protocol-none : (l : Libraries) (uri : List ℕ) → All IsInUri uri → after_protocol l uri ≡ uri
unfolding after_protocol
after_protocol-none l uri h = rw (after_protocol, find_char-none b':' uri (no_colon uri h)) refl

-- One slash in front of a character that is none.
after_authority-slash :
    (l : Libraries) (s more : List ℕ)
    → IsDocumented l
    → All IsOrdinary s
    → 0 < length s
    → All IsInUri (s ++ more)
    → after_authority l (b'/' ∷ (s ++ more)) ≡ some (s ++ more)
unfolding after_authority after_first_slash
after_authority-slash l [] more doc h some_char plain = absurd (omega arith)
after_authority-slash l (x ∷ s) more doc h some_char plain =
    ground (arith, doc.trim_none (x ∷ (s ++ more)) (not_space (x ∷ (s ++ more)) plain))

construct_lem :
    (l : Libraries) (uri rest : List ℕ)
    → IsDocumented l
    → All IsInUri uri
    → 0 < length uri
    → after_authority l uri ≡ some rest
    → construct l uri ≡ construct_loop (length rest) l rest 0 empty_name
unfolding construct
construct_lem l uri rest doc plain some_char behind =
    ground (arith, doc.trim_none uri (not_space uri plain), after_protocol-none l uri plain, behind)

root_uri : (l : Libraries) → IsDocumented l → after_authority l (b'/' ∷ []) ≡ some []
unfolding after_authority after_first_slash
root_uri l doc = rw (doc.trim_none [] tt) refl

construct-components :
    (l : Libraries) (cs : List Block)
    → IsDocumented l
    → All IsNamed cs
    → construct l (if length cs == 0 then b'/' ∷ [] else components_to_uri cs)
      ≡ some (ok (name_of (map reread cs)))
unfolding components_to_uri
construct-components l [] doc h =
    construct_lem l (b'/' ∷ []) [] doc ((refl, omega arith), tt) (omega arith) (root_uri l doc)
    ∙ loop_done l doc 0 [] 0 empty_name (omega arith)
construct-components l (c ∷ cs) doc h =
    let u = component_to_uri c in
    let s = u ++ components_to_uri cs in
    let (ordinary, some_char) = component_to_uri-IsOrdinary c h.0.0 in
    let plain = components_to_uri-IsInUri (c ∷ cs) h in
    let nonempty : (length (c ∷ cs) == 0) ≡ false = ground arith in
    rw nonempty (
      construct_lem l (b'/' ∷ s) s doc plain (omega arith)
        (after_authority-slash l u (components_to_uri cs) doc ordinary some_char plain.1)
      ∙ loop_rest l doc (length s) [] c cs [] h.0 h.1 (omega arith))

-- A name that is read from its URI has the components of the name: generic ones with any bytes for
-- their values, and implicit digests. Nothing of it is taken for a protocol, an authority, or spaces
-- to be trimmed, and the loop ends. For bytes below 256, values shorter than 2^63 bytes and
-- digests of 32 bytes, and a `trim` and a hexadecimal decoder that do what they document.
pub construct-to_uri :
    (l : Libraries) (name : Name)
    → IsDocumented l
    → All IsNamed (elements name)
    → construct l (to_uri name) ≡ some (ok (name_of (map reread (elements name))))
unfolding to_uri
construct-to_uri l name doc h = construct-components l (elements name) doc h
