-- ===== src/Server/Guards/Exposure.antt =====
-- Which hosts count as this machine.
use telegent.Base.{
  Text, codes, text_eq, text_eq_ne, ◌==◌, any, ◌≡◌, refl, ap, true, false, ◌||◌, [], ◌∷◌, arith,
}
use telegent.Server.Guards.{before_colon, is_localhost}

before_colon-clean : (s : Text) → any (λ c. c == b':') (before_colon s) ≡ false
before_colon-clean [] = refl
before_colon-clean (c ∷ s) = ground (arith, before_colon-clean s)

-- A name with a colon is never what stands before the first colon.
before_colon-ne : (s t : Text) → any (λ c. c == b':') t ≡ true → text_eq (before_colon s) t ≡ false
before_colon-ne s t h = text_eq_ne (before_colon s) t λ e.
    let same : any (λ c. c == b':') (before_colon s) ≡ any (λ c. c == b':') t =
      ap (any (λ c. c == b':')) e in
    ground (arith, before_colon-clean s, same, h)

-- The two spellings of the IPv6 loopback never match, with or without a port: a host header counts as
-- this machine exactly when it is `localhost` or `127.0.0.1` up to its first colon.
pub is_localhost-before_colon :
    (header : Text)
    → is_localhost header ≡ (
        text_eq (before_colon header) (codes "localhost")
        || text_eq (before_colon header) (codes "127.0.0.1"))
unfolding is_localhost
is_localhost-before_colon header =
    ground (
      arith,
      before_colon-ne header (codes "[::1]") refl,
      before_colon-ne header (codes "::1") refl,
    )
