-- ===== src/Tuned/Table/Scoped.antt =====
-- The storage ids of kernels tell their ids and their namespaces apart.
use libtriton_jit.Common.{[], ◌∷◌, Bytes, ◌≡◌, ◌≢◌, refl}
use libtriton_jit.CacheKey.Injective.{field, field_inj}
use libtriton_jit.Tuned.Table.{scoped_kernel_id}

-- The id does not begin with the mark of a scoped one.
abbrev pub Unmarked : Bytes → Type 0
Unmarked [] = Unit
Unmarked (c ∷ rest) = c ≢ b'@'

-- If no kernel id begins with @, then a storage id comes from one kernel id and one namespace only.
pub scoped_kernel_id_inj :
    (id id' space space' : Bytes)
    → Unmarked id
    → Unmarked id'
    → scoped_kernel_id id space ≡ scoped_kernel_id id' space'
    → (id ≡ id') × (space ≡ space')
unfolding scoped_kernel_id
scoped_kernel_id_inj id id' [] [] h h' e = (e, refl)
scoped_kernel_id_inj [] id' [] (y ∷ ys) h h' e = absurd cc
scoped_kernel_id_inj (c ∷ id) id' [] (y ∷ ys) h h' e = absurd (h cc)
scoped_kernel_id_inj id [] (x ∷ xs) [] h h' e = absurd cc
scoped_kernel_id_inj id (c ∷ id') (x ∷ xs) [] h h' e = absurd (h' cc)
scoped_kernel_id_inj id id' (x ∷ xs) (y ∷ ys) h h' e =
    let t : field (x ∷ xs) (b':' ∷ id) ≡ field (y ∷ ys) (b':' ∷ id') = cc in
    let both = field_inj (x ∷ xs) (y ∷ ys) (b':' ∷ id) (b':' ∷ id') t in
    (let k = both.1 in cc, both.0)
