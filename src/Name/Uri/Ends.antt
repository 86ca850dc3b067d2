-- ===== src/Name/Uri/Ends.antt =====
-- name.cpp: construct returns or throws on any string.
use ndn_cxx_logging.Base.{
  Option-cases, ℕ, zero, suc, ◌+◌, ◌≤◌, ◌≢◌, none, List, length, ltb, arith, inl, inr, Bool-cases,
  Result-cases,
}
use ndn_cxx_logging.StringHelper.{Libraries}
use ndn_cxx_logging.Component.{from_escaped_string}
use ndn_cxx_logging.Name.{Name, empty_name, append}
use ndn_cxx_logging.Name.Uri.{
  component_end, construct_loop, construct, after_authority, after_protocol,
}

component_end-le : (uri : List ℕ) (start : ℕ) → start ≤ length uri → start ≤ component_end uri start
unfolding component_end
component_end-le uri start h = ground arith

construct_loop-ends :
    (fuel : ℕ) (l : Libraries) (uri : List ℕ) (start : ℕ) (name : Name)
    → length uri ≤ fuel + start
    → construct_loop fuel l uri start name ≢ none
unfolding construct_loop
construct_loop-ends zero l uri start name h e = ground arith
construct_loop-ends (suc fuel) l uri start name h e = elim (Bool-cases (ltb start (length uri))) [
  | inr outside ↦ ground arith
  | inl inside ↦ elim (Result-cases (from_escaped_string l uri start (component_end uri start))) [
    | inr (thrown, bad) ↦ ground arith
    | inl (c, good) ↦
        let further : start ≤ component_end uri start = component_end-le uri start (ground arith) in
        construct_loop-ends fuel l uri (suc (component_end uri start)) (append name c)
          (omega (arith, further)) (rw (construct_loop, inside, good) at e)
  ]
]

-- `construct` ends on any string, and whatever `trim` does: its loop takes no more rounds than the
-- string has characters.
pub construct-ends : (l : Libraries) (uri : List ℕ) → construct l uri ≢ none
unfolding construct
construct-ends l uri e = elim (Option-cases (after_authority l (after_protocol l (l.trim uri)))) [
  | inl only_authority ↦ ground arith
  | inr (rest, found) ↦
      ground (arith, construct_loop-ends (length rest) l rest 0 empty_name (omega arith))
]
