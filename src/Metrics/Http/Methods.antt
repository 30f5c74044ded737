-- ===== src/Metrics/Http/Methods.antt =====
-- The labels of methods.
use yeet_yoink.Common.{◌≡◌, ◌↔◌, sym, ◌∙◌, ap, arith}
use yeet_yoink.Metrics.Http.{Http, HasNames, http_method_text, from_method}

module _ (H : Http) (names : HasNames H) where
  label-text : (m : H.Method) → http_method_text H (from_method H m) ≡ H.method_text m
  unfolding http_method_text from_method
  label-text m = ground (
    arith,
    H.method_eq.beq_iff m H.get,
    H.method_eq.beq_iff m H.options,
    H.method_eq.beq_iff m H.post,
    H.method_eq.beq_iff m H.put,
    H.method_eq.beq_iff m H.delete,
    H.method_eq.beq_iff m H.head,
    H.method_eq.beq_iff m H.patch,
    names.get_name,
    names.options_name,
    names.post_name,
    names.put_name,
    names.delete_name,
    names.head_name,
    names.patch_name,
  )

  -- Where methods are told apart by their texts and the seven named ones have the usual texts, a
  -- method's label carries the method's own text, and two methods have the same label exactly if
  -- they are the same.
  pub from_method-text :
      (m n : H.Method)
      → (http_method_text H (from_method H m) ≡ H.method_text m)
        × ((from_method H m ≡ from_method H n) ↔ (m ≡ n))
  from_method-text m n = (
    label-text m,
    (
      λ e. names.same_text m n (sym (label-text m) ∙ ap (http_method_text H) e ∙ label-text n),
      λ e. ap (from_method H) e,
    ),
  )
