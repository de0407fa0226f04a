-- ===== src/Bundle/Equality.antt =====
-- Python's `==` on what `json.loads` makes: a Boolean is equal to 0 or 1, and a dict to one with the
-- same keys in another order.
use playbook_redline.Base.{Bool, true, false, ◌&&◌, ◌==◌, str_eq}
use playbook_redline.Base.Int.{ℤ, pos, negsuc}
use playbook_redline.Canonical.{
  Json, null, bool, int, str, arr, obj, Items, nil, cons, Fields, end, field,
}
use playbook_redline.Canonical.Dump.{normalize}

abbrev same_int : ℤ → ℤ → Bool
same_int (pos n) (pos m) = n == m
same_int (negsuc n) (negsuc m) = n == m
same_int _ _ = false

abbrev int_of : Bool → ℤ
int_of true = pos 1
int_of false = pos 0

unfoldable mutual
  pub same_value : Json → Json → Bool
  same_value null null = true
  same_value (bool b) (bool c) = same_int (int_of b) (int_of c)
  same_value (bool b) (int n) = same_int (int_of b) n
  same_value (int n) (bool c) = same_int n (int_of c)
  same_value (int n) (int m) = same_int n m
  same_value (str s) (str t) = str_eq s t
  same_value (arr xs) (arr ys) = same_items xs ys
  same_value (obj fs) (obj gs) = same_fields fs gs
  same_value _ _ = false

  pub same_items : Items → Items → Bool
  same_items nil nil = true
  same_items (cons x xs) (cons y ys) = let rest = same_items xs ys in same_value x y && rest
  same_items _ _ = false

  pub same_fields : Fields → Fields → Bool
  same_fields end end = true
  same_fields (field k v fs) (field j w gs) =
      let rest = same_fields fs gs in str_eq k j && same_value v w && rest
  same_fields _ _ = false

-- The keys of a dict are sorted first; what `json.loads` makes has no key twice.
unfoldable pub py_equal : Json → Json → Bool
unfolding same_value
py_equal a b = same_value (normalize a) (normalize b)
