-- ===== src/RateLimits/Locks/Order.antt =====
-- The order of the buckets that `lockOrder` of src/repo/rate_limits.ts means, and the text that it
-- sorts by.
use ratline.Prelude.{ℕ, ◌≡◌, refl, ap, ◌∙◌, Bool, ◌&&◌, ◌||◌, ltb, ◌++◌}
use ratline.Prelude.Text.{Text, lit, text_lt}
use ratline.RateLimits.{
  Key, Dimension, account, address, AuthPath, login, two_factor, password_reset, token_exchange,
  same_dimension, same_path,
}
use ratline.RateLimits.Transactions.{path_name, dimension_rank, rank}

-- The canonical order, written out: dimension, then path, then key.
abbrev dimension_place : Dimension → ℕ
dimension_place account = 0
dimension_place address = 1

abbrev path_place : AuthPath → ℕ
path_place login = 0
path_place password_reset = 1
path_place token_exchange = 2
path_place two_factor = 3

abbrev pub is_before : Key → Key → Bool
is_before a b =
    ltb (dimension_place a.dimension) (dimension_place b.dimension)
    || (same_dimension a.dimension b.dimension
        && (ltb (path_place a.path) (path_place b.path)
            || (same_path a.path b.path && text_lt a.bucket_key b.bucket_key)))

-- The texts of two paths, each before its key, compare as the paths and then the keys.
path_name-text_lt :
    (p q : AuthPath) (s t : Text)
    → text_lt (path_name p ++ (lit ":" ++ s)) (path_name q ++ (lit ":" ++ t))
      ≡ (ltb (path_place p) (path_place q) || (same_path p q && text_lt s t))
unfolding text_lt
path_name-text_lt login login s t = refl
path_name-text_lt login password_reset s t = refl
path_name-text_lt login token_exchange s t = refl
path_name-text_lt login two_factor s t = refl
path_name-text_lt password_reset login s t = refl
path_name-text_lt password_reset password_reset s t = refl
path_name-text_lt password_reset token_exchange s t = refl
path_name-text_lt password_reset two_factor s t = refl
path_name-text_lt token_exchange login s t = refl
path_name-text_lt token_exchange password_reset s t = refl
path_name-text_lt token_exchange token_exchange s t = refl
path_name-text_lt token_exchange two_factor s t = refl
path_name-text_lt two_factor login s t = refl
path_name-text_lt two_factor password_reset s t = refl
path_name-text_lt two_factor token_exchange s t = refl
path_name-text_lt two_factor two_factor s t = refl

dimension_rank-text_lt :
    (d e : Dimension) (s t : Text)
    → text_lt (dimension_rank d ++ (lit ":" ++ s)) (dimension_rank e ++ (lit ":" ++ t))
      ≡ (ltb (dimension_place d) (dimension_place e) || (same_dimension d e && text_lt s t))
unfolding text_lt
dimension_rank-text_lt account account s t = refl
dimension_rank-text_lt account address s t = refl
dimension_rank-text_lt address account s t = refl
dimension_rank-text_lt address address s t = refl

-- The text that the code sorts by compares as the canonical order.
pub rank-text_lt : (a b : Key) → text_lt (rank a) (rank b) ≡ is_before a b
unfolding rank
rank-text_lt a b =
    dimension_rank-text_lt a.dimension b.dimension (path_name a.path ++ (lit ":" ++ a.bucket_key))
      (path_name b.path ++ (lit ":" ++ b.bucket_key))
    ∙ ap
        (λ x.
          ltb (dimension_place a.dimension) (dimension_place b.dimension)
          || (same_dimension a.dimension b.dimension && x))
        (path_name-text_lt a.path b.path a.bucket_key b.bucket_key)
