-- ===== src/Lookup/Sample.antt =====
-- The directories of the small index that the tests of the lookups (src/xal.c) share.
use xal.Base.{ℕ, zero, suc, refl}
use xal.Reader.Sample.{sample_seen, sample_pools}
use xal.Lookup.{names_at}
use xal.Lookup.Children.{IsSpan}
use xal.Lookup.Children.Names.{precedes}
use xal.Lookup.Find.{Directory}

pub sample_spans : (k : ℕ) → Directory sample_pools k → IsSpan sample_seen k
unfolding names_at precedes
sample_spans zero h = record { in_range = refl; rising = ((refl, tt), (tt, tt)) }
sample_spans (suc zero) h = cc
sample_spans (suc (suc zero)) h = record { in_range = refl; rising = (tt, tt) }
sample_spans (suc (suc (suc zero))) h = cc
sample_spans (suc (suc (suc (suc k)))) h = cc
