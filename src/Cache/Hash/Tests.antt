-- ===== src/Cache/Hash/Tests.antt =====
-- Runs of roundup2 of src/cache/lru.c.
use libgpuarray.Base.{◌≡◌, refl}
use libgpuarray.Cache.Hash.{roundup2}

-- 65 rounds up to 128.
rounds : roundup2 65 ≡ 128
unfolding roundup2
rounds = refl

-- Nothing rounds up to no bucket at all.
rounds_none : roundup2 0 ≡ 0
unfolding roundup2
rounds_none = refl
