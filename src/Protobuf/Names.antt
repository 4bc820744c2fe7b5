-- ===== src/Protobuf/Names.antt =====
-- normProtoType of redpanda/models/schema/protobuf_canonicalize.go: the ways to write a type of the
-- package.
use terraform_provider_redpa.Base.{
  ◌≡◌, refl, sym, ap, ◌∙◌, inl, inr, false, [], ◌∷◌, ◌++◌, arith, Option-cases, Text, codes,
  is_empty, strip, has_prefix, trim_prefix, trim_prefix-append,
}
use mathlib.Core.List.{append_assoc}
use terraform_provider_redpa.Protobuf.{norm_proto_type}

abbrev pub qualified : (pkg typ : Text) → Text
qualified pkg typ = pkg ++ (codes "." ++ typ)

abbrev pub absolute : (pkg typ : Text) → Text
absolute pkg typ = codes "." ++ qualified pkg typ

strip-absent : (s p : Text) → has_prefix s p ≡ false → trim_prefix s p ≡ s
unfolding has_prefix trim_prefix
strip-absent s p h = elim (Option-cases (strip s p)) [
  | inl e ↦ rw e refl
  | inr (t, e) ↦ absurd (ground (arith, h, e))
]

-- A package in front leaves the first byte.
undotted :
    (pkg rest : Text)
    → is_empty pkg ≡ false
    → has_prefix pkg (codes ".") ≡ false
    → trim_prefix (pkg ++ rest) (codes ".") ≡ pkg ++ rest
unfolding has_prefix trim_prefix strip
undotted [] rest named no_dot = cc
undotted (c ∷ pkg) rest named no_dot = ground arith

unprefixed : (pkg typ : Text) → trim_prefix (qualified pkg typ) (pkg ++ codes ".") ≡ typ
unprefixed pkg typ =
    ap (λ s. trim_prefix s (pkg ++ codes ".")) (sym (append_assoc pkg (codes ".") typ))
    ∙ trim_prefix-append (pkg ++ codes ".") typ

-- A type of a named package, whose relative name begins neither with a dot nor with the package, is
-- reduced to its relative name, whether it is written relatively, with the package, or with the
-- package and a leading dot; the package begins with no dot.
pub norm_proto_type-absolute :
    (pkg typ : Text)
    → is_empty pkg ≡ false
    → has_prefix pkg (codes ".") ≡ false
    → has_prefix typ (codes ".") ≡ false
    → has_prefix typ (pkg ++ codes ".") ≡ false
    → (norm_proto_type pkg typ ≡ typ)
      × (norm_proto_type pkg (qualified pkg typ) ≡ typ)
      × (norm_proto_type pkg (absolute pkg typ) ≡ typ)
unfolding norm_proto_type
norm_proto_type-absolute pkg typ named no_dot relative unqualified =
    let plain = strip-absent typ (codes ".") relative in
    let bare = strip-absent typ (pkg ++ codes ".") unqualified in
    let inner = undotted pkg (codes "." ++ typ) named no_dot in
    let outer = trim_prefix-append (codes ".") (qualified pkg typ) in
    let full = unprefixed pkg typ in
    (rw (named, plain) bare, rw (named, inner) full, rw (named, outer) full)
