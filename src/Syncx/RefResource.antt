-- ===== src/Syncx/RefResource.antt =====
-- core/syncx/refresource.go: RefResource. The lock makes each method one step; `ref` is an int32, here
-- its 32 bits. `cleans` counts the calls of the function `clean`.
use fastgozero.Prelude.{
  ℕ, suc, ◌+◌, ◌-◌, ◌%◌, ◌<◌, ◌≡◌, refl, ap, ◌∙◌, Bool, true, false, List, [], ◌∷◌, arith, ◌==◌,
  if◌then◌else◌,
}
use fastgozero.Syncx.AtomicLimit.{word}

pub record RefResource : Type 0 where
  pub ref : ℕ
  pub cleaned : Bool
  pub cleans : ℕ

-- NewRefResource
abbrev pub new_ref_resource : RefResource
new_ref_resource = record { ref = 0; cleaned = false; cleans = 0 }

-- Use; the flag is whether it returns nil.
unfoldable pub use_resource : RefResource → RefResource × Bool
use_resource r = if r.cleaned then (r, false) else (record r { ref = (r.ref + 1) % word }, true)

-- Clean
unfoldable pub clean : RefResource → RefResource
clean r =
    if r.cleaned
    then r
    else (let ref = (r.ref + (word - 1)) % word in
        if ref == 0
        then record { ref = ref; cleaned = true; cleans = r.cleans + 1 }
        else record r { ref = ref })

pub data Call : Type 0 where
  use_call : Call
  clean_call : Call

unfoldable pub calls : List Call → RefResource → RefResource
unfolding use_resource clean
calls [] r = r
calls (use_call ∷ cs) r = calls cs (use_resource r).0
calls (clean_call ∷ cs) r = calls cs (clean r)

-- From `n` users on, the calls leave `m`: after each of them there is one at least, and fewer than
-- 2 ^ 32.
pub data Open : ℕ → List Call → ℕ → Type 0 where
  no_call : {n : ℕ} → Open n [] n
  one_more :
      {n m : ℕ} {cs : List Call} → suc n < word → Open (suc n) cs m → Open n (use_call ∷ cs) m
  one_less : {n m : ℕ} {cs : List Call} → Open (suc n) cs m → Open (suc (suc n)) (clean_call ∷ cs) m

abbrev pub open_resource : ℕ → RefResource
open_resource n = record { ref = n; cleaned = false; cleans = 0 }

abbrev pub cleaned_resource : RefResource
cleaned_resource = record { ref = 0; cleaned = true; cleans = 1 }

calls-Open :
    {n m : ℕ} {cs : List Call}
    → n < word
    → Open n cs m
    → calls cs (open_resource n) ≡ open_resource m
unfolding calls
calls-Open lt no_call = refl
calls-Open {n} lt (one_more {m = m} {cs = cs} lt' o) =
    ap (λ k. calls cs (open_resource k)) (unfold use_resource in omega (arith, lt'))
    ∙ calls-Open lt' o
calls-Open lt (one_less {n} {m} {cs} o) = ap (calls cs) one_left ∙ calls-Open (omega (arith, lt)) o
  where
    one_left : clean (open_resource (suc (suc n))) ≡ open_resource (suc n)
    one_left = unfold clean in rw left (rw not_zero refl)
      where
        left : (suc (suc n) + (word - 1)) % word ≡ suc n
        left = omega (arith, lt)

        not_zero : (suc n == 0) ≡ false
        not_zero = ground arith

calls_closed : (cs : List Call) → calls cs cleaned_resource ≡ cleaned_resource
unfolding calls use_resource clean
calls_closed [] = refl
calls_closed (use_call ∷ cs) = calls_closed cs
calls_closed (clean_call ∷ cs) = calls_closed cs

-- While users are left, the resource is not cleaned; the Clean of the last one calls `clean`, and
-- whatever is called after it, `clean` is not called again and Use fails.
pub clean_once :
    (cs more : List Call)
    → Open 0 cs 1
    → (calls cs new_ref_resource ≡ open_resource 1)
      × (calls more (clean (calls cs new_ref_resource)) ≡ cleaned_resource)
      × ((use_resource (calls more (clean (calls cs new_ref_resource)))).1 ≡ false)
clean_once cs more o = (one, all, ap (λ r. (use_resource r).1) all ∙ (unfold use_resource in refl))
  where
    one : calls cs new_ref_resource ≡ open_resource 1
    one = calls-Open (omega arith) o

    last : clean (open_resource 1) ≡ cleaned_resource
    last = unfold clean in refl

    all : calls more (clean (calls cs new_ref_resource)) ≡ cleaned_resource
    all = ap (λ r. calls more (clean r)) one ∙ ap (calls more) last ∙ calls_closed more
