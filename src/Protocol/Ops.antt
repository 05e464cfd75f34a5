-- ===== src/Protocol/Ops.antt =====
-- An op as it stands in an envelope, known or not: `Op` of
-- engine/crates/muxdeck-core/src/envelope.rs.
use muxdeck.Prelude.{
  String, ◌≡◌, refl, Option, none, some, List, [], ◌∷◌, arith, eq_iff, ◌==◌, string_eq,
  if◌then◌else◌,
}
use muxdeck.Protocol.KnownOps
use muxdeck.Protocol.KnownOps.{KnownOp}

pub data Op : Type 0 where
  known_op : KnownOp → Op
  unknown_op : String → Op

-- `iter().find(|candidate| candidate.as_str() == wire)`
pub find : String → List KnownOp → Option KnownOp
find wire [] = none
find wire (op ∷ rest) = if KnownOps.as_str op == wire then some op else find wire rest

unfoldable pub parse : String → Op
unfolding find
parse wire = elim (find wire KnownOps.all) [ none ↦ unknown_op wire | some op ↦ known_op op ]

unfoldable pub as_str : Op → String
as_str (known_op op) = KnownOps.as_str op
as_str (unknown_op raw) = raw

unfoldable pub known : Op → Option KnownOp
known (known_op op) = some op
known (unknown_op raw) = none

find-as_str :
    (wire : String) (ops : List KnownOp) (op : KnownOp)
    → find wire ops ≡ some op
    → KnownOps.as_str op ≡ wire
unfolding find
find-as_str wire [] op h = ground arith
find-as_str wire (o ∷ ops) op h =
    ground (arith, eq_iff (KnownOps.as_str o) wire, find-as_str wire ops op)

-- Every op is found again by its wire string.
pub parse-as_str : (op : KnownOp) → parse (KnownOps.as_str op) ≡ known_op op
unfolding parse KnownOps.as_str
parse-as_str KnownOp.session_hello = refl
parse-as_str _ = refl

-- Whatever the wire string, parsing it and writing the op back gives the same string.
pub as_str-parse : (wire : String) → as_str (parse wire) ≡ wire
unfolding parse as_str
as_str-parse wire =
    elim (find wire KnownOps.all)
        as (λ o.
          find wire KnownOps.all ≡ o
          → as_str (elim o [ none ↦ unknown_op wire | some op ↦ known_op op ]) ≡ wire) [
            | none ↦ λ h. refl
            | some op ↦ λ h. find-as_str wire KnownOps.all op h
          ]
      refl
