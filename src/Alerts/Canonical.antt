-- ===== src/Alerts/Canonical.antt =====
-- The canonical form in which `json.dumps(…, sort_keys=True)` of src/quality/alert_service.py puts the
-- dimensions, and that it is one and the same for all orders of the entries.
use pulse_data_platform.Base.{
  ◌≡◌, refl, sym, ap, ◌∙◌, String, Bool, true, false, some, List, [], ◌∷◌, All, arith, Bool-cases,
  inl, inr, str_eq, eq_iff, subst, ◌↔◌, eq_refl,
}
use pulse_data_platform.Base.Dicts.{IsKey, get, has, has-get, has-eq-get}
use pulse_data_platform.Base.Sorting.{
  insert_by, sort_by, IsSorted, any-insert_by, any-sort_by, sort_by-IsSorted,
}
use pulse_data_platform.Base.Strict.{
  text_less, text_less-IsStrict, text_less_total, by, by-IsStrict, not_after, not_after-IsOrder,
}

abbrev pub Entry : Type 0
Entry = String × String

abbrev key_order : Entry → Entry → Bool
key_order = not_after (by (λ (e : Entry). e.0) text_less)

-- `sort_keys=True`
unfoldable pub canonical : List Entry → List Entry
canonical d = sort_by key_order d

-- A dictionary has each key once.
abbrev pub IsDict : List Entry → Type 0
IsDict [] = Unit
IsDict (e ∷ d) = (has str_eq e.0 d ≡ false) × IsDict d

abbrev pub SameDict : List Entry → List Entry → Type 0
SameDict c d = (k : String) → get str_eq k c ≡ get str_eq k d

text-IsKey : IsKey str_eq
text-IsKey = record { self = eq_refl; exact = λ s t h. (eq_iff s t).0 h }

get-insert_by :
    (k : String) (e : Entry) (d : List Entry)
    → has str_eq e.0 d ≡ false
    → get str_eq k (insert_by key_order e d) ≡ get str_eq k (e ∷ d)
unfolding get insert_by
get-insert_by k e [] h = refl
get-insert_by k e (x ∷ d) h = elim (Bool-cases (key_order e x)) [
  | inl first ↦ rw first refl
  | inr later ↦
      let rest = get-insert_by k e d (ground arith) in
      rw later (elim (Bool-cases (str_eq e.0 k)) [
        | inl this ↦
            let here : e.0 ≡ k = (eq_iff e.0 k).0 this in
            let other : str_eq x.0 k ≡ false = rw⁻¹ here (ground arith) in
            rw (other, this, rest, this) refl
        | inr that ↦ rw (that, rest, that) refl
      ])
]

text_apart : (s t : String) → str_eq s t ≡ false → str_eq t s ≡ false
text_apart s t h = elim (Bool-cases (str_eq t s)) [
  | inl e ↦ let same : t ≡ s = (eq_iff t s).0 e in ground (arith, eq_iff s t)
  | inr e ↦ e
]

insert_by-IsDict :
    (e : Entry) (d : List Entry)
    → has str_eq e.0 d ≡ false
    → IsDict d
    → IsDict (insert_by key_order e d)
unfolding insert_by
insert_by-IsDict e [] h old = (refl, tt)
insert_by-IsDict e (x ∷ d) h old = elim (Bool-cases (key_order e x)) [
  | inl first ↦ rw first (h, old)
  | inr later ↦
      let apart : str_eq e.0 x.0 ≡ false = text_apart x.0 e.0 (ground arith) in
      rw later (
        (any-insert_by key_order (λ (y : Entry). str_eq y.0 x.0) e d ∙ rw apart old.0),
        insert_by-IsDict e d (ground arith) old.1,
      )
]

canonical-IsDict : (d : List Entry) → IsDict d → IsDict (canonical d)
unfolding canonical sort_by
canonical-IsDict [] h = h
canonical-IsDict (e ∷ d) h =
    insert_by-IsDict e (sort_by key_order d)
      (any-sort_by key_order (λ (y : Entry). str_eq y.0 e.0) d ∙ h.0) (canonical-IsDict d h.1)

get-canonical :
    (k : String) (d : List Entry) → IsDict d → get str_eq k (canonical d) ≡ get str_eq k d
unfolding canonical sort_by get
get-canonical k [] h = refl
get-canonical k (e ∷ d) h =
    get-insert_by k e (sort_by key_order d)
      (any-sort_by key_order (λ (y : Entry). str_eq y.0 e.0) d ∙ h.0)
    ∙ rw (get-canonical k d h.1) refl

canonical-IsSorted : (d : List Entry) → IsSorted key_order (canonical d)
unfolding canonical
canonical-IsSorted d =
    sort_by-IsSorted key_order
      (not_after-IsOrder (by (λ (e : Entry). e.0) text_less)
        (by-IsStrict (λ (e : Entry). e.0) text_less text_less-IsStrict))
      d

text_less_self : (s : String) → text_less s s ≡ false
text_less_self s = elim (Bool-cases (text_less s s)) [
  | inl e ↦ text_less-IsStrict.asym s s e
  | inr e ↦ e
]

least_behind :
    (k : String) (e : Entry) (d : List Entry)
    → All (λ (y : Entry). key_order e y ≡ true) d
    → has str_eq k d ≡ true
    → text_less k e.0 ≡ false
least_behind k e [] h found = absurd (cc)
least_behind k e (y ∷ d) h found = elim (Bool-cases (str_eq y.0 k)) [
  | inl this ↦ let same : y.0 ≡ k = (eq_iff y.0 k).0 this in rw⁻¹ same (ground (arith, h.0))
  | inr that ↦ least_behind k e d h.1 (ground arith)
]

-- No key of a sorted dictionary is less than the first.
least :
    (k : String) (e : Entry) (d : List Entry)
    → IsSorted key_order (e ∷ d)
    → has str_eq k (e ∷ d) ≡ true
    → text_less k e.0 ≡ false
least k e d h found = elim (Bool-cases (str_eq e.0 k)) [
  | inl this ↦ let same : e.0 ≡ k = (eq_iff e.0 k).0 this in rw same (text_less_self k)
  | inr that ↦ least_behind k e d h.0 (ground arith)
]

first_has :
    (j : String) (v : String) (c d : List Entry) → SameDict ((j, v) ∷ c) d → has str_eq j d ≡ true
unfolding get
first_has j v c d h =
    let found : get str_eq j d ≡ some v = sym (h j) ∙ rw (eq_refl j) refl in
    has-eq-get str_eq j d ∙ rw found refl

rest_same :
    (j v : String) (c d : List Entry)
    → has str_eq j c ≡ false
    → has str_eq j d ≡ false
    → SameDict ((j, v) ∷ c) ((j, v) ∷ d)
    → SameDict c d
unfolding get
rest_same j v c d hc hd h k = elim (Bool-cases (str_eq j k)) [
  | inl this ↦
      let same : j ≡ k = (eq_iff j k).0 this in
      rw⁻¹ same (has-get str_eq text-IsKey j c hc ∙ sym (has-get str_eq text-IsKey j d hd))
  | inr that ↦ let at = h k in ground arith
]

-- Sorted dictionaries with the same entries are equal.
sorted_unique :
    (c d : List Entry)
    → IsSorted key_order c
    → IsSorted key_order d
    → IsDict c
    → IsDict d
    → SameDict c d
    → c ≡ d
unfolding get
sorted_unique [] [] sc sd uc ud h = refl
sorted_unique [] ((k, w) ∷ d) sc sd uc ud h = absurd (let at = h k in ground (arith, eq_refl k))
sorted_unique ((j, v) ∷ c) [] sc sd uc ud h = absurd (let at = h j in ground (arith, eq_refl j))
sorted_unique ((j, v) ∷ c) ((k, w) ∷ d) sc sd uc ud h =
    let same : j ≡ k =
      text_less_total j k (least j (k, w) d sd (first_has j v c ((k, w) ∷ d) h))
        (least k (j, v) c sc (first_has k w d ((j, v) ∷ c) (λ x. sym (h x)))) in
    let worth : v ≡ w = let at = h j in ground (arith, eq_refl j, eq_iff k j) in
    let tails =
      rest_same j v c d uc.0 (subst (λ x. has str_eq x d ≡ false) (sym same) ud.0) (
        subst (λ (e : Entry). SameDict ((j, v) ∷ c) (e ∷ d)) (sym (joined j k v w same worth)) h) in
    let rest = sorted_unique c d sc.1 sd.1 uc.1 ud.1 tails in
    rw (joined j k v w same worth, rest) refl
  where
    joined : (j k v w : String) → j ≡ k → v ≡ w → ◌≡◌ {A = Entry} (j, v) (k, w)
    joined j k v w same worth = rw (same, worth) refl

-- Two dictionaries have one canonical form exactly if each key has one value in both.
pub canonical-SameDict :
    (c d : List Entry) → IsDict c → IsDict d → (canonical c ≡ canonical d) ↔ SameDict c d
canonical-SameDict c d hc hd = (
  λ same k. sym (get-canonical k c hc) ∙ ap (get str_eq k) same ∙ get-canonical k d hd,
  λ same.
      sorted_unique (canonical c) (canonical d) (canonical-IsSorted c) (canonical-IsSorted d)
        (canonical-IsDict c hc) (canonical-IsDict d hd)
        (λ k. get-canonical k c hc ∙ same k ∙ sym (get-canonical k d hd)),
)
