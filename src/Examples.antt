-- ===== src/Examples.antt =====
-- The theorems at concrete inputs.
mod Server
mod Db
mod Holder
mod Hermes
mod Ties
mod StakingLog
mod Rewards
mod Shelf
mod VoterReward
mod AccountIncome
mod Authorization
mod Service
