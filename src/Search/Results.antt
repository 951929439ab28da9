-- ===== src/Search/Results.antt =====
-- internal/search: the rows that the services return.
use usage_viewer.Prelude.{Text, ℤ, List}

-- Numbers that the database prints, such as costs, are texts in the source as well.
pub record KeyResult : Type 0 where
  pub id : ℤ
  pub name : Text
  pub group_name : Text
  pub current_concurrency : ℤ
  pub today_cost : Text
  pub total30d_cost : Text
  pub quota : Text
  pub quota_used : Text
  pub last_used_at : Text
  pub expires_at : Text
  pub status : Text
  pub created_at : Text

pub record Results : Type 0 where
  pub keys : List KeyResult
  pub page : ℤ
  pub page_size : ℤ
  pub total : ℤ

pub record DailyUsagePoint : Type 0 where
  pub date : Text
  pub actual_cost : Text

pub record LeaderboardEntry : Type 0 where
  pub rank : ℤ
  pub key_masked : Text
  pub name : Text
  pub group_name : Text
  pub actual_cost : Text

pub record SelfResult : Type 0 where
  pub key_masked : Text
  pub name : Text
  pub group_name : Text
  pub quota : Text
  pub quota_used : Text
  pub status : Text
  pub expires_at : Text
  pub today_cost : Text
  pub daily_usage : List DailyUsagePoint
