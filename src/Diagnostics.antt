-- ===== src/Diagnostics.antt =====
-- src/diagnostics/span.rs: source spans.
use yidika.Base.{ℕ, min, max}

pub record Span : Type 0 where
  pub start : ℕ
  pub end : ℕ

-- `Span::merge`
unfoldable pub merge : Span → Span → Span
merge s t = record { start = min s.start t.start; end = max s.end t.end }
