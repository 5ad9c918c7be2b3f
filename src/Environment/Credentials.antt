-- ===== src/Environment/Credentials.antt =====
-- The checks on the credentials, read one by one.
use project.Base.{
  ==_iff, Bool, List, Option, String, [], any, any-append, ap, arith, eq_option, eq_string, eq_ℕ,
  false, none, not, refl, some, sym, true, ◌&&◌, ◌++◌, ◌==◌, ◌||◌, ◌↔◌, ◌∙◌, ◌∷◌, ◌≡◌,
}
use project.Environment.{given, has_duplicate, has_sample, sample_keys}

-- No two of the credentials are the same.
unfoldable pub is_distinct : List String → Bool
unfolding any
is_distinct [] = true
is_distinct (k ∷ keys) = not (any (λ s. s == k) keys) && is_distinct keys

-- Neither do two of the rest agree, nor one of them with a credential that was seen.
unfoldable pub apart : List String → List String → Bool
unfolding any
apart seen [] = true
apart seen (k ∷ keys) = not (any (λ s. s == k) seen) && apart seen keys

apart-cons :
    (k : String) (seen keys : List String)
    → apart (k ∷ seen) keys ≡ (not (any (λ s. s == k) keys) && apart seen keys)
unfolding apart any
apart-cons k seen [] = refl
apart-cons k seen (j ∷ keys) = ground (arith, ==_iff k j, ==_iff j k, apart-cons k seen keys)

pub has_duplicate-apart :
    (seen keys : List String) → has_duplicate seen keys ≡ not (apart seen keys && is_distinct keys)
unfolding has_duplicate apart is_distinct
has_duplicate-apart seen [] = refl
has_duplicate-apart seen (k ∷ keys) =
    ground (arith, has_duplicate-apart (k ∷ seen) keys, apart-cons k seen keys)

pub apart-nil : (keys : List String) → apart [] keys ≡ true
unfolding apart any
apart-nil [] = refl
apart-nil (k ∷ keys) = ground (arith, apart-nil keys)

-- A credential that is configured and is the one in question; a blank one counts as absent.
abbrev pub is_given : Option String → String → Bool
is_given none k = false
is_given (some s) k = not (s == "") && s == k

-- Two credentials that are configured and equal.
abbrev pub clash : Option String → Option String → Bool
clash none other = false
clash (some s) other = not (s == "") && is_given other s

-- One of the credentials of the sample file.
abbrev pub is_sample : Option String → Bool
is_sample o =
    is_given o "dev-bootstrap-key-change-me"
    || (is_given o "dev-operator-key-change-me"
        || (is_given o "dev-viewer-key-change-me"
            || (is_given o "dev-admin-key-change-me" || is_given o "dev-key-change-me")))

-- No two of the four roles share a credential, and none has one of the sample file.
pub record IsApart (b o : String) (v a : Option String) : Type 0 where
  pub bootstrap_operator : clash (some b) (some o) ≡ false
  pub bootstrap_viewer : clash (some b) v ≡ false
  pub bootstrap_admin : clash (some b) a ≡ false
  pub operator_viewer : clash (some o) v ≡ false
  pub operator_admin : clash (some o) a ≡ false
  pub viewer_admin : clash v a ≡ false

pub record IsSecret (b o : String) (v a : Option String) : Type 0 where
  pub bootstrap : is_sample (some b) ≡ false
  pub operator : is_sample (some o) ≡ false
  pub viewer : is_sample v ≡ false
  pub admin : is_sample a ≡ false

-- The list of the credentials, read one by one.
any-given : (k : String) (o : Option String) → any (λ s. s == k) (given o) ≡ is_given o k
unfolding any
any-given k none = refl
any-given k (some s) = ground arith

-- A credential that is not among the rest.
free_of : Option String → List String → Bool
free_of none rest = true
free_of (some s) rest = s == "" || not (any (λ k. k == s) rest)

free_of-append :
    (o : Option String) (xs ys : List String)
    → free_of o (xs ++ ys) ≡ (free_of o xs && free_of o ys)
unfolding free_of
free_of-append none xs ys = refl
free_of-append (some s) xs ys = rw (any-append (λ k. k == s) xs ys) (ground arith)

free_of-given : (o p : Option String) → free_of o (given p) ≡ not (clash o p)
unfolding free_of
free_of-given none p = refl
free_of-given (some s) p = rw (any-given s p) (ground arith)

is_distinct-given :
    (o : Option String) (rest : List String)
    → is_distinct (given o ++ rest) ≡ (is_distinct rest && free_of o rest)
unfolding is_distinct free_of
is_distinct-given none rest = ground arith
is_distinct-given (some s) rest = ground arith

single-is_distinct : (o : Option String) → is_distinct (given o) ≡ true
unfolding is_distinct any
single-is_distinct none = refl
single-is_distinct (some s) = ground arith

++_assoc : (xs ys zs : List String) → xs ++ ys ++ zs ≡ xs ++ (ys ++ zs)
++_assoc [] ys zs = refl
++_assoc (x ∷ xs) ys zs = ap (λ l. x ∷ l) (++_assoc xs ys zs)

four_lists : (xs ys zs ws : List String) → xs ++ ys ++ zs ++ ws ≡ xs ++ (ys ++ (zs ++ ws))
four_lists xs ys zs ws = ++_assoc (xs ++ ys) zs ws ∙ ++_assoc xs ys (zs ++ ws)

pub is_distinct-IsApart :
    (b o : String) (v a : Option String)
    → (is_distinct (given (some b) ++ given (some o) ++ given v ++ given a) ≡ true)
      ↔ IsApart b o v a
is_distinct-IsApart b o v a =
    let whole : is_distinct (given (some b) ++ given (some o) ++ given v ++ given a) ≡ (
        (true && not (clash v a) && (not (clash (some o) v) && not (clash (some o) a)))
        && (not (clash (some b) (some o)) && (not (clash (some b) v) && not (clash (some b) a)))) =
      ap is_distinct (four_lists (given (some b)) (given (some o)) (given v) (given a))
      ∙ is_distinct-given (some b) (given (some o) ++ (given v ++ given a))
      ∙ rw
          (
            is_distinct-given (some o) (given v ++ given a),
            is_distinct-given v (given a),
            single-is_distinct a,
            free_of-append (some b) (given (some o)) (given v ++ given a),
            free_of-append (some b) (given v) (given a),
            free_of-append (some o) (given v) (given a),
            free_of-given (some b) (some o),
            free_of-given (some b) v,
            free_of-given (some b) a,
            free_of-given (some o) v,
            free_of-given (some o) a,
            free_of-given v a,
          )
          refl in
    (
      λ e.
          let six = sym whole ∙ e in
          record {
            bootstrap_operator = ground (arith, six);
            bootstrap_viewer = ground (arith, six);
            bootstrap_admin = ground (arith, six);
            operator_viewer = ground (arith, six);
            operator_admin = ground (arith, six);
            viewer_admin = ground (arith, six);
          },
      λ i.
          whole
          ∙ rw
              (
                i.bootstrap_operator, i.bootstrap_viewer, i.bootstrap_admin, i.operator_viewer,
                i.operator_admin, i.viewer_admin,
              )
              refl,
    )

==_swap : (s t : String) → (s == t) ≡ (t == s)
==_swap s t = ground (arith, ==_iff s t, ==_iff t s)

has_sample-given : (o : Option String) → has_sample (given o) ≡ is_sample o
unfolding has_sample sample_keys any
has_sample-given none = refl
has_sample-given (some s) =
    rw
      (
        ==_swap s "dev-bootstrap-key-change-me",
        ==_swap s "dev-operator-key-change-me",
        ==_swap s "dev-viewer-key-change-me",
        ==_swap s "dev-admin-key-change-me",
        ==_swap s "dev-key-change-me",
      )
      (ground arith)

has_sample-append : (xs ys : List String) → has_sample (xs ++ ys) ≡ (has_sample xs || has_sample ys)
unfolding has_sample
has_sample-append xs ys = any-append (λ k. any (λ s. s == k) sample_keys) xs ys

none_of :
    (p q r s : Bool)
    → (p || (q || (r || s))) ≡ false
    → (p ≡ false) × (q ≡ false) × (r ≡ false) × (s ≡ false)
none_of p q r s h = (ground arith, ground arith, ground arith, ground arith)

pub has_sample-IsSecret :
    (b o : String) (v a : Option String)
    → (has_sample (given (some b) ++ given (some o) ++ given v ++ given a) ≡ false)
      ↔ IsSecret b o v a
has_sample-IsSecret b o v a =
    let whole : has_sample (given (some b) ++ given (some o) ++ given v ++ given a)
        ≡ (is_sample (some b) || (is_sample (some o) || (is_sample v || is_sample a))) =
      ap has_sample (four_lists (given (some b)) (given (some o)) (given v) (given a))
      ∙ has_sample-append (given (some b)) (given (some o) ++ (given v ++ given a))
      ∙ rw
          (
            has_sample-append (given (some o)) (given v ++ given a),
            has_sample-append (given v) (given a),
            has_sample-given (some b),
            has_sample-given (some o),
            has_sample-given v,
            has_sample-given a,
          )
          refl in
    (
      λ e.
          let (in_b, in_o, in_v, in_a) =
            none_of (is_sample (some b)) (is_sample (some o)) (is_sample v) (is_sample a)
              (sym whole ∙ e) in
          record { bootstrap = in_b; operator = in_o; viewer = in_v; admin = in_a },
      λ i. whole ∙ rw (i.bootstrap, i.operator, i.viewer, i.admin) refl,
    )
