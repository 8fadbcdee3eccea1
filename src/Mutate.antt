-- ===== src/Mutate.antt =====
-- tools/mutate.ts and tools/mutate: the mutation tool, from a file's tokens to the mutants that are run.
pub mod Texts
pub mod Edits
pub mod Functions
pub mod Numerals
pub mod Literals
pub mod Defaults
pub mod Names
pub mod Generate
pub mod Sample
pub mod Select
pub mod Locate
pub mod Triage
pub mod Rounds
pub mod Shuffled
pub mod Strata
pub mod SortedStrata
pub mod Draw
pub mod Spans
pub mod Loop
pub mod Digits
pub mod TextLaws
pub mod Faithful
pub mod Mutants
pub mod Applied
pub mod Reach
pub mod Hits
pub mod Placed
pub mod Distinct
mod Examples
