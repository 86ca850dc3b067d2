-- ===== src/Name/Uri/Loop.antt =====
-- name.cpp: the loop of construct over the URIs of components.
use ndn_cxx_logging.Base.{
  ℕ, zero, suc, ◌+◌, ◌^◌, ◌≤◌, ◌<◌, ◌≡◌, ◌≢◌, refl, sym, ap, ◌∙◌, some, List, [], ◌∷◌, ◌++◌, map,
  ◌==◌, if◌then◌else◌, length, slice, arith, ok, All, Bool-cases, inl, inr, ◌⊎◌, length-append,
  drop-append, slice-append, lt→ltb, le→ltb_false,
}
use ndn_cxx_logging.Base.Bytes.{IsBytes}
use ndn_cxx_logging.Block.{Block, type, value, of_value}
use ndn_cxx_logging.Block.Elements.{push_back}
use ndn_cxx_logging.Block.Wire.{whole}
use ndn_cxx_logging.Block.Parse.{to_list-of_list}
use ndn_cxx_logging.StringHelper.{Libraries, IsDocumented}
use ndn_cxx_logging.Component.{
  to_uri as component_to_uri, from_escaped_string, name_component, implicit_sha256_digest_component,
  sha256_digest_size,
}
use ndn_cxx_logging.Component.Uri.{from_escaped_string-to_uri}
use ndn_cxx_logging.Name.{Name, append}
use ndn_cxx_logging.Name.SubName.{name_of}
use ndn_cxx_logging.Name.Uri.{component_end, construct_loop, components_to_uri}
use ndn_cxx_logging.Base.Strings.{find_char-none}
use ndn_cxx_logging.Name.Uri.Characters.{IsOrdinary, component_to_uri-IsOrdinary, find_char-slash}
use mathlib.Core.List.{append_assoc, append-nil}

-- The components of which the URI says everything: any value of the generic type, and digests.
abbrev pub IsNamed : Block → Type 0
IsNamed c =
    IsBytes (value c)
    × (length (value c) < 2 ^ 63)
    × ((type c ≡ name_component)
        ⊎ ((type c ≡ implicit_sha256_digest_component) × (length (value c) ≡ sha256_digest_size)))

-- The component that its URI becomes.
abbrev pub reread : Block → Block
reread c =
    if type c == name_component
    then whole name_component (value c)
    else of_value implicit_sha256_digest_component (value c)

component-reread :
    (l : Libraries) (str : List ℕ) (from to : ℕ) (c : Block)
    → IsDocumented l
    → IsNamed c
    → slice from to str ≡ component_to_uri c
    → from_escaped_string l str from to ≡ ok (reread c)
component-reread l str from to c doc (bytes, fits, kind) cut =
    from_escaped_string-to_uri l str from to c doc cut bytes fits kind
    ∙ elim (Bool-cases (type c == name_component)) [
      | inl generic ↦ rw generic refl
      | inr digest ↦ rw digest refl
    ]

no_slash : (s : List ℕ) → All IsOrdinary s → All (λ x. x ≢ b'/') s
no_slash [] h = tt
no_slash (c ∷ s) h = (h.0.1, no_slash s h.1)

-- Where the component behind `pre` ends: at a slash, or at the end of the string.
component_end-slash :
    (pre s rest : List ℕ)
    → All IsOrdinary s
    → component_end (pre ++ (s ++ (b'/' ∷ rest))) (length pre) ≡ length pre + length s
unfolding component_end
component_end-slash pre s rest h =
    rw
      (
        component_end,
        drop-append (length pre) pre (s ++ (b'/' ∷ rest)) refl,
        find_char-slash s rest h,
      )
      refl

component_end-last :
    (pre s : List ℕ)
    → All IsOrdinary s
    → component_end (pre ++ s) (length pre) ≡ length pre + length s
unfolding component_end
component_end-last pre s h =
    rw (component_end, drop-append (length pre) pre s refl, find_char-none b'/' s (no_slash s h))
      (length-append pre s)

append-name_of :
    (front : List Block) (c : Block) → append (name_of front) c ≡ name_of (front ++ (c ∷ []))
unfolding append push_back
append-name_of front c = rw to_list-of_list refl

module _ (l : Libraries) (doc : IsDocumented l) where
  -- One round, on a component that is found.
  loop_round :
      (fuel : ℕ) (uri : List ℕ) (start end : ℕ) (c : Block) (front : List Block)
      → IsNamed c
      → start < length uri
      → component_end uri start ≡ end
      → slice start end uri ≡ component_to_uri c
      → construct_loop (suc fuel) l uri start (name_of front)
        ≡ construct_loop fuel l uri (suc end) (name_of (front ++ (reread c ∷ [])))
  unfolding construct_loop
  loop_round fuel uri start end c front named inside ends cut =
      rw (construct_loop, lt→ltb start (length uri) inside, ends)
        (rw
          (component-reread l uri start end c doc named cut, append-name_of front (reread c), ends)
          refl)

  pub loop_done :
      (fuel : ℕ) (uri : List ℕ) (start : ℕ) (name : Name)
      → length uri ≤ start
      → construct_loop fuel l uri start name ≡ some (ok name)
  unfolding construct_loop
  loop_done zero uri start name h = rw (construct_loop, le→ltb_false start (length uri) h) refl
  loop_done (suc fuel) uri start name h =
      rw (construct_loop, le→ltb_false start (length uri) h) refl

  pub loop_rest :
      (fuel : ℕ) (pre : List ℕ) (c : Block) (cs front : List Block)
      → IsNamed c
      → All IsNamed cs
      → length (component_to_uri c ++ components_to_uri cs) ≤ fuel
      → construct_loop fuel l
          (pre ++ (component_to_uri c ++ components_to_uri cs))
          (length pre)
          (name_of front)
        ≡ some (ok (name_of (front ++ map reread (c ∷ cs))))
  unfolding components_to_uri
  loop_rest zero pre c cs front h hs enough = absurd (
      omega (
        arith,
        (component_to_uri-IsOrdinary c h.0).1,
        length-append (component_to_uri c) (components_to_uri cs),
      ))
  loop_rest (suc fuel) pre c [] front h hs enough =
      let u = component_to_uri c in
      let (ordinary, some_char) = component_to_uri-IsOrdinary c h.0 in
      let end = length pre + length u in
      let sizes = length-append pre u in
      rw (append-nil u) (
        loop_round fuel (pre ++ u) (length pre) end c front h (omega (arith, sizes, some_char))
          (component_end-last pre u ordinary)
          (ap (λ (x : List ℕ). slice (length pre) end (pre ++ x)) (sym (append-nil u))
            ∙ slice-append (length pre) end pre u [] refl refl)
        ∙ loop_done fuel (pre ++ u) (suc end) _ (omega (arith, sizes)))
  loop_rest (suc fuel) pre c (d ∷ ds) front h hs enough =
      let u = component_to_uri c in
      let (ordinary, some_char) = component_to_uri-IsOrdinary c h.0 in
      let more = component_to_uri d ++ components_to_uri ds in
      let end = length pre + length u in
      let uri = pre ++ (u ++ (b'/' ∷ more)) in
      let sizes = length-append pre (u ++ (b'/' ∷ more)) in
      let sizes2 = length-append u (b'/' ∷ more) in
      let passed = (pre ++ u) ++ (b'/' ∷ []) in
      let at_passed : length passed ≡ suc end =
        omega (arith, length-append (pre ++ u) (b'/' ∷ []), length-append pre u) in
      let regroup : passed ++ more ≡ uri =
        append_assoc (pre ++ u) (b'/' ∷ []) more ∙ append_assoc pre u (b'/' ∷ more) in
      loop_round fuel uri (length pre) end c front h (omega (arith, sizes, sizes2))
        (component_end-slash pre u more ordinary)
        (slice-append (length pre) end pre u (b'/' ∷ more) refl refl)
      ∙ rw (← regroup, ← at_passed)
          (loop_rest fuel passed d ds (front ++ (reread c ∷ [])) hs.0 hs.1 (omega (arith, sizes2))
            ∙ ap (λ (l : List Block). some (ok (name_of l)))
                (append_assoc front (reread c ∷ []) (map reread (d ∷ ds))))
