-- ===== src/ShortTerm/Lists.antt =====
-- The commands of Redis that context/short_term_memory.py calls, and their documented effects.
use hommey.Prelude.{
  List, Option, String, [], drop, if◌then◌else◌, length, none, some, suc, ℕ, ◌++◌, ◌-◌, ◌==◌, ◌∷◌,
  ◌≡◌, String_eq, ℕ_eq,
}

-- xs[-n:], and what LTRIM key -n -1 leaves: -0 is 0, so for n = 0 it is everything.
unfoldable pub from_end {ℓ} : {A : Type ℓ} → ℕ → List A → List A
from_end n xs = if n == 0 then xs else drop (length xs - n) xs

abbrev pub head_of {ℓ} : {A : Type ℓ} → List A → Option A
head_of [] = none
head_of (x ∷ xs) = some x

abbrev pub last_of {ℓ} : {A : Type ℓ} → List A → Option A
last_of [] = none
last_of (x ∷ []) = some x
last_of (x ∷ y ∷ xs) = last_of (y ∷ xs)

-- A server of values `V`, within the time to live of its keys. `items` is a list's values, LRANGE key 0 -1, and
-- `number` a counter, GET key or 0. A key is used for a list or for a counter, never for both.
pub record ListServer (V : Type 0) : Type 1 where
  pub State : Type 0
  pub items : String → State → List V
  pub number : String → State → ℕ
  pub rpush : String → V → State → State
  pub ltrim : String → ℕ → State → State
  pub incr : String → State → State
  pub delete : String → State → State
  pub set_number : String → ℕ → State → State
  pub expire : String → ℕ → State → State
  pub items_rpush :
      (k l : String) (v : V) (s : State)
      → items l (rpush k v s) ≡ (if k == l then items l s ++ v ∷ [] else items l s)
  pub items_ltrim :
      (k l : String) (n : ℕ) (s : State)
      → items l (ltrim k n s) ≡ (if k == l then from_end n (items l s) else items l s)
  pub items_incr : (k l : String) (s : State) → items l (incr k s) ≡ items l s
  pub items_delete :
      (k l : String) (s : State) → items l (delete k s) ≡ (if k == l then [] else items l s)
  pub items_set_number : (k l : String) (n : ℕ) (s : State) → items l (set_number k n s) ≡ items l s
  pub items_expire : (k l : String) (n : ℕ) (s : State) → items l (expire k n s) ≡ items l s
  pub number_rpush : (k l : String) (v : V) (s : State) → number l (rpush k v s) ≡ number l s
  pub number_ltrim : (k l : String) (n : ℕ) (s : State) → number l (ltrim k n s) ≡ number l s
  pub number_incr :
      (k l : String) (s : State)
      → number l (incr k s) ≡ (if k == l then suc (number l s) else number l s)
  pub number_delete :
      (k l : String) (s : State) → number l (delete k s) ≡ (if k == l then 0 else number l s)
  pub number_set_number :
      (k l : String) (n : ℕ) (s : State)
      → number l (set_number k n s) ≡ (if k == l then n else number l s)
  pub number_expire : (k l : String) (n : ℕ) (s : State) → number l (expire k n s) ≡ number l s
