-- ===== src/Tests/UriTests.antt =====
-- Concrete runs of the URIs of names in name.cpp, and the theorems about them at concrete inputs.
use ndn_cxx_logging.Base.{◌≡◌, ◌≢◌, refl, inl, [], ◌∷◌, map, none, some, ok, All, arith}
use ndn_cxx_logging.Base.Strings.{find_char}
use ndn_cxx_logging.Block.{elements, of_value}
use ndn_cxx_logging.Component.{name_component}
use ndn_cxx_logging.Name.{Name, empty_name}
use ndn_cxx_logging.Name.SubName.{name_of}
use ndn_cxx_logging.Name.Uri.{construct, after_protocol, after_authority, after_first_slash, to_uri}
use ndn_cxx_logging.Name.Uri.Loop.{IsNamed, reread}
use ndn_cxx_logging.Name.Uri.RoundTrip.{construct-to_uri}
use ndn_cxx_logging.Name.Uri.Ends.{construct-ends}
use ndn_cxx_logging.Tests.ComponentTests.{libraries, libraries-IsDocumented}

-- The components "a/" and "", whose URI is "/a%2F/...".
abbrev name_slashed : Name
name_slashed =
    name_of (of_value name_component (b'a' ∷ b'/' ∷ []) ∷ of_value name_component [] ∷ [])

slashed-IsNamed : All IsNamed (elements name_slashed)
slashed-IsNamed = ((omega arith, omega arith, inl refl), ((omega arith, omega arith, inl refl), tt))

construct-to_uri_example :
    construct libraries (to_uri name_slashed)
    ≡ some (ok (name_of (map reread (elements name_slashed))))
construct-to_uri_example =
    construct-to_uri libraries name_slashed libraries-IsDocumented slashed-IsNamed

-- "//a" is an authority only.
authority_only : construct libraries (b'/' ∷ b'/' ∷ b'a' ∷ []) ≡ some (ok empty_name)
unfolding construct after_protocol after_authority after_first_slash find_char
authority_only = refl

construct-ends_example : construct libraries (b'a' ∷ b'/' ∷ b'.' ∷ []) ≢ none
construct-ends_example = construct-ends libraries (b'a' ∷ b'/' ∷ b'.' ∷ [])
