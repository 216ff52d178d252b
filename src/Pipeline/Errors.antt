-- ===== src/Pipeline/Errors.antt =====
-- The errors of a crawl in backend/app/crawler/errors.py.
use Prim.Native.String.{String}
use wisdom_qj_auction_servic.Models.{RunStatus, failed, blocked}

pub data CrawlError : Type 0 where
  crawl_failed access_blocked login_required captcha_detected complex_not_found : CrawlError
  ambiguous_source selector_mismatch incomplete_listing_collection : CrawlError
  browser_unavailable browser_disconnected : CrawlError

-- The attribute `code`.
abbrev pub code_of : CrawlError → String
code_of crawl_failed = "crawl_failed"
code_of access_blocked = "access_blocked"
code_of login_required = "login_required"
code_of captcha_detected = "captcha_detected"
code_of complex_not_found = "complex_not_found"
code_of ambiguous_source = "ambiguous_source"
code_of selector_mismatch = "selector_mismatch"
code_of incomplete_listing_collection = "incomplete_listing_collection"
code_of browser_unavailable = "browser_unavailable"
code_of browser_disconnected = "browser_disconnected"

-- The attribute `run_status`, inherited from `BlockedCrawlError` or `CrawlError`.
abbrev pub run_status_of : CrawlError → RunStatus
run_status_of access_blocked = blocked
run_status_of login_required = blocked
run_status_of captcha_detected = blocked
run_status_of _ = failed
